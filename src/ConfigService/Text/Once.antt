-- ===== src/ConfigService/Text/Once.antt =====
-- What `find_once` finds.
use red_monkey_mpg_firmware.Base.{
  ℕ, suc, ◌>>=◌, if◌then◌else◌, true, false, Option, none, some, List, [], ◌∷◌, ◌++◌, ◌≡◌, ◌↔◌, inl,
  inr, refl, ap, ◌∙◌, arith, drop, length, is_some, Bool-cases,
}
use red_monkey_mpg_firmware.ConfigService.Text.{begins, strstr, find_once}

-- A text that begins with the key is the key and what follows it.
begins-drop : (key text : List ℕ) → begins key text ≡ true → text ≡ key ++ drop (length key) text
unfolding begins
begins-drop [] text h = refl
begins-drop (k ∷ ks) [] h = cc
begins-drop (k ∷ ks) (c ∷ cs) h = ground (arith, begins-drop ks cs)

-- At how many places of the text the key stands.
unfoldable pub count : List ℕ → List ℕ → ℕ
count key [] = 0
count key (c ∷ cs) = let later = count key cs in if begins key (c ∷ cs) then suc later else later

-- A search that fails saw no place, and one that succeeds saw the first.
Found : List ℕ → List ℕ → Option (List ℕ) → Type 0
Found key text none = count key text ≡ 0
Found key text (some found) =
    ((before : List ℕ) × (text ≡ before ++ found))
    × (begins key found ≡ true)
    × (count key text ≡ suc (count key (drop 1 found)))

later-Found :
    (key : List ℕ) (c : ℕ) (cs : List ℕ) (o : Option (List ℕ))
    → begins key (c ∷ cs) ≡ false
    → Found key cs o
    → Found key (c ∷ cs) o
unfolding Found count
later-Found key c cs none e h = rw e h
later-Found key c cs (some found) e ((before, all), start, number) =
    ((c ∷ before, ap (◌∷◌ c) all), start, rw e number)

strstr-Found : (key text : List ℕ) → Found key text (strstr text key)
unfolding strstr Found
strstr-Found key [] = unfold count in refl
strstr-Found key (c ∷ cs) = elim (Bool-cases (begins key (c ∷ cs))) [
  | inl e ↦ rw e (([], refl), e, unfold count in rw e refl)
  | inr e ↦ rw e (later-Found key c cs (strstr cs key) e (strstr-Found key cs))
]

-- What is said of a result.
Once : List ℕ → List ℕ → Option (List ℕ) → Type 0
Once line key result =
    ((is_some result ≡ true) ↔ (count key line ≡ 1))
    × ((rest : List ℕ) → result ≡ some rest → (before : List ℕ) × (line ≡ before ++ (key ++ rest)))

last-Once :
    (line key found : List ℕ) (later : Option (List ℕ))
    → Found key line (some found)
    → Found key (drop 1 found) later
    → Once line key (if is_some later then none else some (drop (length key) found))
unfolding Once Found
last-Once line key found none ((before, all), start, number) h = (
  ((λ e. number ∙ ap suc h), (λ e. refl)),
  λ rest e. (before, all ∙ ap (◌++◌ before) (ground (arith, e, begins-drop key found start))),
)
last-Once line key found (some other) (split, start, number) (_, _, more) =
    (((λ e. ground arith), (λ e. ground (arith, number, more))), λ rest e. ground arith)

first-Once :
    (line key : List ℕ) (first : Option (List ℕ))
    → Found key line first
    → Once line key (
        first >>= λ found.
        if is_some (strstr (drop 1 found) key) then none else some (drop (length key) found))
first-Once line key none h = unfold Once Found in ground arith
first-Once line key (some found) h =
    last-Once line key found (strstr (drop 1 found) key) h (strstr-Found key (drop 1 found))

-- A key is found exactly when it stands at one place of the line, and what is given then follows
-- it in the line.
pub find_once_lem :
    (line key : List ℕ)
    → ((is_some (find_once line key) ≡ true) ↔ (count key line ≡ 1))
      × ((rest : List ℕ)
          → find_once line key ≡ some rest
          → (before : List ℕ) × (line ≡ before ++ (key ++ rest)))
unfolding find_once Once
find_once_lem line key = first-Once line key (strstr line key) (strstr-Found key line)

-- ===== src/Tests/Codec.antt =====
-- Values as texts that can be read back: what the tests use in place of the formats of the packages.
use Prim.Native.Char.{code}
use master_gateway_auth.Prelude.{
  ℕ, zero, suc, String, Option, none, some, List, [], ◌∷◌, ◌≡◌, refl, ap, eqb, if◌then◌else◌,
}

-- `put a s` is the text of `a` before `s`.
pub record Codec (A : Type 0) : Type 0 where
  pub put : A → String → String
  pub get : String → Option (A × String)
  pub law : (a : A) (s : String) → get (put a s) ≡ some (a, s)

abbrev cons_first : {A B : Type 0} → (A → B) → Option (A × String) → Option (B × String)
cons_first f none = none
cons_first f (some (a, s)) = some (f a, s)

abbrev put_nat : ℕ → String → String
put_nat zero s = String.◌∷◌ "0" s
put_nat (suc n) s = String.◌∷◌ "1" (put_nat n s)

abbrev get_nat : String → Option (ℕ × String)
get_nat String.[] = none
get_nat (String.◌∷◌ c s) =
    let rest = cons_first suc (get_nat s) in if eqb (code c) b'1' then rest else some (0, s)

pub get-put_nat : (n : ℕ) (s : String) → get_nat (put_nat n s) ≡ some (n, s)
get-put_nat zero s = refl
get-put_nat (suc n) s = ap (cons_first suc) (get-put_nat n s)

abbrev put_text : String → String → String
put_text String.[] s = String.◌∷◌ "0" s
put_text (String.◌∷◌ c t) s = String.◌∷◌ "1" (String.◌∷◌ c (put_text t s))

abbrev get_text : String → Option (String × String)
get_text String.[] = none
get_text (String.◌∷◌ c String.[]) = some ("", "")
get_text (String.◌∷◌ c (String.◌∷◌ d s)) =
    let rest = cons_first (String.◌∷◌ d) (get_text s) in
    if eqb (code c) b'1' then rest else some ("", String.◌∷◌ d s)

pub get-put_text : (t s : String) → get_text (put_text t s) ≡ some (t, s)
get-put_text String.[] String.[] = refl
get-put_text String.[] (String.◌∷◌ c s) = refl
get-put_text (String.◌∷◌ c t) s = ap (cons_first (String.◌∷◌ c)) (get-put_text t s)

abbrev pub natural : Codec ℕ
natural = record { put = put_nat; get = get_nat; law = get-put_nat }

abbrev pub text : Codec String
text = record { put = put_text; get = get_text; law = get-put_text }

module _ {A B : Type 0} (x : Codec A) (y : Codec B) where
  abbrev put_pair : A × B → String → String
  put_pair (a, b) s = x.put a (y.put b s)

  abbrev after_first : Option (A × String) → Option ((A × B) × String)
  after_first none = none
  after_first (some (a, s)) = cons_first (λ b. (a, b)) (y.get s)

  pub get-put_pair : (p : A × B) (s : String) → after_first (x.get (put_pair p s)) ≡ some (p, s)
  get-put_pair (a, b) s = rw (x.law a (y.put b s), y.law b s) refl

  abbrev pub pair : Codec (A × B)
  pair = record { put = put_pair; get = λ s. after_first (x.get s); law = get-put_pair }

module _ {A : Type 0} (x : Codec A) where
  abbrev put_option : Option A → String → String
  put_option none s = String.◌∷◌ "0" s
  put_option (some a) s = String.◌∷◌ "1" (x.put a s)

  abbrev get_option : String → Option (Option A × String)
  get_option String.[] = none
  get_option (String.◌∷◌ c s) =
      if eqb (code c) b'1' then cons_first some (x.get s) else some (none, s)

  pub get-put_option : (o : Option A) (s : String) → get_option (put_option o s) ≡ some (o, s)
  get-put_option none s = refl
  get-put_option (some a) s = rw (x.law a s) refl

  abbrev pub option : Codec (Option A)
  option = record { put = put_option; get = get_option; law = get-put_option }

  abbrev put_items : List A → String → String
  put_items [] s = s
  put_items (a ∷ as') s = x.put a (put_items as' s)

  abbrev size : List A → ℕ
  size [] = 0
  size (a ∷ as') = suc (size as')

  abbrev get_items : ℕ → String → Option (List A × String)
  get_items zero s = some ([], s)
  get_items (suc n) s = elim (x.get s) [
    | none ↦ none
    | some (a, s') ↦ cons_first (λ rest. a ∷ rest) (get_items n s')
  ]

  abbrev get_sized : Option (ℕ × String) → Option (List A × String)
  get_sized none = none
  get_sized (some (n, s)) = get_items n s

  pub get-put_items :
      (as' : List A) (s : String) → get_items (size as') (put_items as' s) ≡ some (as', s)
  get-put_items [] s = refl
  get-put_items (a ∷ as') s = rw (x.law a (put_items as' s), get-put_items as' s) refl

  pub get-put_list :
      (as' : List A) (s : String)
      → get_sized (get_nat (put_nat (size as') (put_items as' s))) ≡ some (as', s)
  get-put_list as' s = rw (get-put_nat (size as') (put_items as' s)) (get-put_items as' s)

  abbrev pub list : Codec (List A)
  list = record {
    put = λ as' s. put_nat (size as') (put_items as' s);
    get = λ s. get_sized (get_nat s);
    law = get-put_list;
  }

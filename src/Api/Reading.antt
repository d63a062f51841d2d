-- ===== src/Api/Reading.antt =====
-- How the parameters of an address are read.
use stock_anomoly_detection.Prelude.{
  ℕ, ◌≤◌, length, ◌≡◌, refl, sym, ap, ◌∙◌, ◌≢◌, List, [], ◌∷◌, ◌++◌, map, ◌==◌, if◌then◌else◌, All,
  Bool-cases, inl, inr, arith,
}
use stock_anomoly_detection.Text.{Text, split, grow}

-- the text before the first `c`, and the text behind it
abbrev pub until : ℕ → Text → Text
until c [] = []
until c (x ∷ s) = let rest = until c s in if x == c then [] else x ∷ rest

abbrev pub behind : ℕ → Text → Text
behind c [] = []
behind c (x ∷ s) = let rest = behind c s in if x == c then s else rest

abbrev pub pair : Text → Text × Text
pair p = (until b'=' p, behind b'=' p)

-- The parameters of an address before they are decoded: those between the first question mark and the
-- hash, parted by ampersands, each a name and a value.
unfoldable pub parameters : Text → List (Text × Text)
parameters url = map pair (split b'&' (behind b'?' (until b'#' url)))

-- The parameters as the server takes them. `decode` is what the framework makes of a name and of a value:
-- a plus sign is a space, and a percent sign with two digits a byte.
unfoldable pub decoded_parameters : (Text → Text) → Text → List (Text × Text)
decoded_parameters decode url = map (λ (x : Text × Text). (decode x.0, decode x.1)) (parameters url)

abbrev pub Lacks : ℕ → Text → Type 0
Lacks c = All (λ (x : ℕ). x ≢ c)

pub until-Lacks : (c : ℕ) (s t : Text) → Lacks c s → until c (s ++ t) ≡ s ++ until c t
until-Lacks c [] t h = refl
until-Lacks c (x ∷ s) t h = let h0 = h.0 in rw (until-Lacks c s t h.1) (ground arith)

pub behind-Lacks : (c : ℕ) (s t : Text) → Lacks c s → behind c (s ++ c ∷ t) ≡ t
behind-Lacks c [] t h = ground arith
behind-Lacks c (x ∷ s) t h = let h0 = h.0 in rw (behind-Lacks c s t h.1) (ground arith)

pub until-all : (c : ℕ) (s : Text) → Lacks c s → until c s ≡ s
until-all c [] h = refl
until-all c (x ∷ s) h = let h0 = h.0 in rw (until-all c s h.1) (ground arith)

pub until-same : (c : ℕ) (s : Text) → until c s ≡ s → Lacks c s
until-same c [] e = tt
until-same c (x ∷ s) e = elim (Bool-cases (x == c)) [
  | inl same ↦ absurd (ground (arith, same, e))
  | inr other ↦ let h : until c s ≡ s = ground (arith, other, e) in (ground arith, until-same c s h)
]

pub behind-skip : (c : ℕ) (s t : Text) → Lacks c s → behind c (s ++ t) ≡ behind c t
behind-skip c [] t h = refl
behind-skip c (x ∷ s) t h = let h0 = h.0 in rw (sym (behind-skip c s t h.1)) (ground arith)

length-grow : (c : ℕ) (l : List Text) → 1 ≤ length l → length (grow c l) ≡ length l
length-grow c [] h = absurd (omega arith)
length-grow c (p ∷ l) h = refl

split_size : (sep : ℕ) (s : Text) → 1 ≤ length (split sep s)
unfolding split
split_size sep [] = omega arith
split_size sep (c ∷ s) =
    let ih = split_size sep s in
    let e = length-grow c (split sep s) ih in
    elim (Bool-cases (c == sep)) [
      | inl same ↦ rw same (omega arith)
      | inr other ↦ rw other (omega (arith, e, ih))
    ]

-- A text in one piece lacks the separator.
pub split_single : (sep : ℕ) (s : Text) → length (split sep s) ≡ 1 → Lacks sep s
unfolding split
split_single sep [] e = tt
split_single sep (c ∷ s) e =
    let size = split_size sep s in
    let grown = length-grow c (split sep s) size in
    elim (Bool-cases (c == sep)) [
      | inl same ↦
          let two : length ([] ∷ split sep s) ≡ 1 = rw same at e in
          absurd (omega (arith, two, size))
      | inr other ↦
          let one : length (grow c (split sep s)) ≡ 1 = rw other at e in
          (ground arith, split_single sep s (sym grown ∙ one))
    ]

pub one_piece : {A B : Type 0} (f : A → B) (l : List A) (x : B) → map f l ≡ x ∷ [] → length l ≡ 1
one_piece f [] x e = absurd (ground arith)
one_piece f (p ∷ []) x e = refl
one_piece f (p ∷ q ∷ l) x e = absurd (ground arith)

pub until-short : (c : ℕ) (s : Text) → length s ≤ length (until c s) → until c s ≡ s
until-short c [] h = refl
until-short c (x ∷ s) h = elim (Bool-cases (x == c)) [
  | inl e ↦ absurd (let k = rw e at h in omega arith)
  | inr e ↦ let k = rw e at h in rw e (ap (◌∷◌ x) (until-short c s (omega arith)))
]

pub length-mapped : {A B : Type 0} (f : A → B) (l : List A) → length (map f l) ≡ length l
length-mapped f [] = refl
length-mapped f (x ∷ l) = omega (arith, length-mapped f l)

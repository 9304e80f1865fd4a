-- ===== src/Cgi/Split.antt =====
-- Where the headers of a script's output end.
use mathlib.Core.Path.{subst}
use mod_perl.Prelude.{
  ℕ, zero, suc, ◌+◌, ◌≤◌, ◌<◌, ◌≡◌, refl, sym, ap, ◌∙◌, true, false, none, some, [], ◌∷◌,
  append_assoc, ◌++◌, ◌==◌, ==_iff, leb, Bool-cases, inl, inr, length, take, length-take,
  take-append-drop, length-drop, arith,
}
use mod_perl.Cgi.{Bytes, next_newln, header_length, split_body}

-- The line ends since the last byte that is neither CR nor a line end, after reading `bytes`.
pub newlines : ℕ → Bytes → ℕ
newlines n [] = n
newlines n (c ∷ rest) = newlines (next_newln n c) rest

header_length-le : (n : ℕ) (b : Bytes) → header_length n b ≤ length b
unfolding header_length
header_length-le n [] = omega arith
header_length-le n (c ∷ rest) = ground (arith, header_length-le (next_newln n c) rest)

next_newln-le : (n c : ℕ) → next_newln n c ≤ n + 1
unfolding next_newln
next_newln-le n c = ground arith

-- Before the cut fewer than two line ends have been counted.
header_length-first :
    (n : ℕ) (b : Bytes) (m : ℕ) → n < 2 → m < header_length n b → newlines n (take m b) < 2
unfolding header_length newlines
header_length-first n [] m h lt = absurd (omega arith)
header_length-first n (c ∷ rest) zero h lt = h
header_length-first n (c ∷ rest) (suc m) h lt = elim (Bool-cases (next_newln n c == 2)) [
  | inl hit ↦ absurd (ground arith)
  | inr miss ↦
      header_length-first (next_newln n c) rest m (ground (arith, next_newln-le n c)) (ground arith)
]

-- Only carriage returns, of which there may be none.
abbrev pub AllCr : Bytes → Type 0
AllCr [] = Unit
AllCr (c ∷ crs) = (c ≡ 13) × AllCr crs

-- A text that ends in a blank line: a line end, carriage returns and nothing else, and a line end.
abbrev pub EndsBlank : Bytes → Type 0
EndsBlank text =
    (front : Bytes) × (crs : Bytes) × AllCr crs × (text ≡ front ++ (b'\n' ∷ (crs ++ (b'\n' ∷ []))))

EndsBlank-behind : (before text : Bytes) → EndsBlank text → EndsBlank (before ++ text)
EndsBlank-behind before text (front, crs, all, e) = (
  before ++ front,
  crs,
  all,
  ap (λ t. before ++ t) e ∙ sym (append_assoc before front (b'\n' ∷ (crs ++ (b'\n' ∷ [])))),
)

AllCr-last : (crs : Bytes) → AllCr crs → AllCr (crs ++ (13 ∷ []))
AllCr-last [] h = (refl, tt)
AllCr-last (c ∷ crs) h = (h.0, AllCr-last crs h.1)

-- What a byte does to the count of line ends.
next_newln-lf : (n c : ℕ) → (c == b'\n') ≡ true → next_newln n c ≡ n + 1
unfolding next_newln
next_newln-lf n c h = ground arith

next_newln-cr : (n c : ℕ) → (c == 13) ≡ true → next_newln n c ≡ n
unfolding next_newln
next_newln-cr n c h = ground arith

next_newln-other : (n c : ℕ) → (c == b'\n') ≡ false → (c == 13) ≡ false → next_newln n c ≡ 0
unfolding next_newln
next_newln-other n c h k = ground arith

header_length-hit : (n c : ℕ) (rest : Bytes) → next_newln n c ≡ 2 → header_length n (c ∷ rest) ≡ 1
unfolding header_length
header_length-hit n c rest e = rw e refl

header_length-on :
    (n c m : ℕ) (rest : Bytes)
    → next_newln n c ≡ m
    → (m == 2) ≡ false
    → header_length n (c ∷ rest) ≡ suc (header_length m rest)
unfolding header_length
header_length-on n c m rest e h = rw (e, h) refl

-- A cut with no line end in front of it, and one with a line end and carriage returns there.
abbrev Cuts0 : Bytes → Type 0
Cuts0 b = header_length 0 b < length b → EndsBlank (take (header_length 0 b) b)

abbrev Cuts1 : Bytes → Type 0
Cuts1 b =
    (crs : Bytes)
    → AllCr crs
    → header_length 1 b < length b
    → EndsBlank ((b'\n' ∷ crs) ++ take (header_length 1 b) b)

cuts : (b : Bytes) → Cuts0 b × Cuts1 b
cuts [] = (λ lt. absurd (omega (arith, lt)), λ crs all lt. absurd (omega (arith, lt)))
cuts (c ∷ rest) =
    let (cuts0, cuts1) = cuts rest in
    elim (Bool-cases (c == b'\n')) [
      | inl lf ↦
          let same : c ≡ b'\n' = (==_iff c b'\n').0 lf in
          let on = header_length-on 0 c 1 rest (next_newln-lf 0 c lf) refl in
          let hit = header_length-hit 1 c rest (next_newln-lf 1 c lf) in
          (
            λ lt. rw (on, same) (cuts1 [] tt (omega (arith, on, lt))),
            λ crs all lt. rw (hit, same) ([], crs, all, refl),
          )
      | inr no_lf ↦ elim (Bool-cases (c == 13)) [
        | inl cr ↦
            let same : c ≡ 13 = (==_iff c 13).0 cr in
            let on0 = header_length-on 0 c 0 rest (next_newln-cr 0 c cr) refl in
            let on1 = header_length-on 1 c 1 rest (next_newln-cr 1 c cr) refl in
            (
              λ lt. rw on0 (EndsBlank-behind (c ∷ []) _ (cuts0 (omega (arith, on0, lt)))),
              λ crs all lt.
                  rw (on1, same)
                    (subst (λ t. EndsBlank (b'\n' ∷ t))
                      (append_assoc crs (13 ∷ []) (take (header_length 1 rest) rest))
                      (cuts1 (crs ++ (13 ∷ [])) (AllCr-last crs all) (omega (arith, on1, lt)))),
            )
        | inr no_cr ↦
            let on0 = header_length-on 0 c 0 rest (next_newln-other 0 c no_lf no_cr) refl in
            let on1 = header_length-on 1 c 0 rest (next_newln-other 1 c no_lf no_cr) refl in
            (
              λ lt. rw on0 (EndsBlank-behind (c ∷ []) _ (cuts0 (omega (arith, on0, lt)))),
              λ crs all lt. rw on1 (
                  subst (λ t. EndsBlank (b'\n' ∷ t))
                    (append_assoc crs (c ∷ []) (take (header_length 0 rest) rest))
                    (EndsBlank-behind ((b'\n' ∷ crs) ++ (c ∷ [])) _
                      (cuts0 (omega (arith, on1, lt))))),
            )
      ]
    ]

newlines-append : (n : ℕ) (a b : Bytes) → newlines n (a ++ b) ≡ newlines (newlines n a) b
unfolding newlines
newlines-append n [] b = refl
newlines-append n (c ∷ a) b = newlines-append (next_newln n c) a b

newlines-AllCr : (n : ℕ) (crs : Bytes) → AllCr crs → newlines n crs ≡ n
unfolding newlines
newlines-AllCr n [] h = refl
newlines-AllCr n (c ∷ crs) h =
    let cr : (c == 13) ≡ true = (==_iff c 13).1 h.0 in
    rw (next_newln-cr n c cr) (newlines-AllCr n crs h.1)

-- Behind a blank line two line ends at least have been counted.
newlines-EndsBlank : (n : ℕ) (text : Bytes) → EndsBlank text → 2 ≤ newlines n text
unfolding newlines
newlines-EndsBlank n text (front, crs, all, e) =
    let k = newlines n front in
    let counted : newlines n text ≡ k + 1 + 1 =
      ap (newlines n) e
      ∙ newlines-append n front (b'\n' ∷ (crs ++ (b'\n' ∷ [])))
      ∙ ap (λ m. newlines m (crs ++ (b'\n' ∷ []))) (next_newln-lf k b'\n' refl)
      ∙ newlines-append (k + 1) crs (b'\n' ∷ [])
      ∙ ap (λ m. next_newln m b'\n') (newlines-AllCr (k + 1) crs all)
      ∙ next_newln-lf (k + 1) b'\n' refl in
    omega (arith, counted)

-- The body that is found is a suffix of the output of the stated length, and what is in front of it
-- ends in a blank line, which is a line end, any number of carriage returns and a line end; no
-- shorter part of the output ends in one.
pub split_body_lem :
    (buffer body : Bytes)
    → (split_body buffer).0 ≡ some body
    → (headers : Bytes) × (headers ++ body ≡ buffer)
      × ((split_body buffer).1 ≡ length body)
      × EndsBlank headers
      × ((m : ℕ) → m < length headers → ¬ EndsBlank (take m buffer))
unfolding split_body
split_body_lem buffer body h = elim (Bool-cases (leb (length buffer) (header_length 0 buffer))) [
  | inl all ↦ absurd (ground arith)
  | inr some_left ↦
      let cut = header_length 0 buffer in
      (
        take cut buffer,
        ground (arith, take-append-drop cut buffer),
        ground (arith, length-drop cut buffer),
        (cuts buffer).0 (ground arith),
        λ m lt blank.
            let early : m < cut = omega (arith, lt, length-take cut buffer) in
            let few = header_length-first 0 buffer m (omega arith) early in
            let many = newlines-EndsBlank 0 (take m buffer) blank in omega (arith, few, many),
      )
]

-- Where no body is found, no proper prefix ends in a blank line, and the stated length is 0.
pub split_body-none :
    (buffer : Bytes)
    → (split_body buffer).0 ≡ none
    → ((split_body buffer).1 ≡ 0) × ((m : ℕ) → m < length buffer → ¬ EndsBlank (take m buffer))
unfolding split_body
split_body-none buffer h = elim (Bool-cases (leb (length buffer) (header_length 0 buffer))) [
  | inl all ↦ (
    ground arith,
    λ m lt blank.
        let few =
          header_length-first 0 buffer m (omega arith)
            (ground (arith, header_length-le 0 buffer)) in
        let many = newlines-EndsBlank 0 (take m buffer) blank in omega (arith, few, many),
  )
  | inr some_left ↦ absurd (ground arith)
]

-- ===== src/Cgi/Tests.antt =====
-- The split of headers and body at "A\n\nB" and at a header that does not end.
use mod_perl.Prelude.{ℕ, ◌<◌, ◌≡◌, refl, none, some, [], ◌∷◌, ◌++◌, length, take}
use mod_perl.Cgi.{Bytes, header_length, split_body, next_newln}
use mod_perl.Cgi.Split.{EndsBlank, split_body_lem}

abbrev page : Bytes
page = b'A' ∷ (b'\n' ∷ (b'\n' ∷ (b'B' ∷ [])))

abbrev unfinished : Bytes
unfinished = b'A' ∷ (b'\n' ∷ [])

split_page : (split_body page).0 ≡ some (b'B' ∷ [])
unfolding split_body header_length next_newln
split_page = refl

split_unfinished : (split_body unfinished).0 ≡ none
unfolding split_body header_length next_newln
split_unfinished = refl

split_body_lem_example :
    (headers : Bytes) × (headers ++ (b'B' ∷ []) ≡ page)
    × ((split_body page).1 ≡ 1)
    × EndsBlank headers
    × ((m : ℕ) → m < length headers → ¬ EndsBlank (take m page))
split_body_lem_example = split_body_lem page (b'B' ∷ []) split_page

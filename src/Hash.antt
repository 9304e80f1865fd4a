-- ===== src/Hash.antt =====
-- Perl's hashes, as the code uses them: newHV, hv_fetch, hv_store and a walk by hv_iternext. The
-- interface states what perlapi documents; Hash.Assoc shows that it can be met.
pub mod Assoc
use mod_perl.Prelude.{◌≡◌, Bool, true, false, Option, none, some, List, [], ◌∷◌, if◌then◌else◌}
use mod_perl.Mgv.{Name, same_name}

abbrev pub assoc_get {ℓ} : {V : Type ℓ} → List (Name × V) → Name → Option V
assoc_get [] key = none
assoc_get ((k, v) ∷ es) key = if same_name k key then some v else assoc_get es key

abbrev pub is_absent {ℓ} : {V : Type ℓ} → Name → List (Name × V) → Bool
is_absent key [] = true
is_absent key ((k, v) ∷ es) = if same_name k key then false else is_absent key es

-- No key stands twice.
abbrev pub Distinct {ℓ} : {V : Type ℓ} → List (Name × V) → Type 0
Distinct [] = Unit
Distinct ((k, v) ∷ es) = (is_absent k es ≡ true) × Distinct es

pub record Hash : Type 1 where
  pub Hv : Type 0 → Type 0
  pub new : {V : Type 0} → Hv V
  pub fetch : {V : Type 0} → Hv V → Name → Option V
  pub store : {V : Type 0} → Hv V → Name → V → Hv V
  pub delete : {V : Type 0} → Hv V → Name → Hv V
  pub each : {V : Type 0} → Hv V → List (Name × V)
  pub fetch-new : {V : Type 0} (key : Name) → fetch (new {V = V}) key ≡ none
  pub fetch-store :
      {V : Type 0} (hv : Hv V) (k : Name) (v : V) (key : Name)
      → fetch (store hv k v) key ≡ (if same_name k key then some v else fetch hv key)
  pub fetch-delete :
      {V : Type 0} (hv : Hv V) (k key : Name)
      → fetch (delete hv k) key ≡ (if same_name k key then none else fetch hv key)
  pub fetch-each : {V : Type 0} (hv : Hv V) (key : Name) → fetch hv key ≡ assoc_get (each hv) key
  pub each-Distinct : {V : Type 0} (hv : Hv V) → Distinct (each hv)

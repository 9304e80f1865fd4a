-- ===== src/Interp/Select/Lookup.antt =====
-- The search of modperl_interp_select: what it finds once an interpreter is noted.
use mod_perl.Prelude.{
  update, update_self, ℕ, ◌≡◌, refl, sym, ap, ap₂, ◌≢◌, ◌∙◌, ◌&&◌, Option, none, some, List, [],
  ◌∷◌, ◌==◌, ==_iff, if◌then◌else◌, Bool-cases, Option-cases, inl, inr, arith,
}
use mod_perl.Interp.{Scope, connection, request, same_scope, Request}
use mod_perl.Interp.Select.{
  main_lookup, is_subrequest, request_lookup, pool_lookup, connection_lookup, else_lookup,
}

module _ (userdata : ℕ → Option ℕ) (m : ℕ) (ms : List ℕ) (p : Option ℕ) where
  main_lookup-some :
      (interp : ℕ)
      → userdata m ≡ some interp
      → main_lookup userdata (m ∷ ms) p ≡ (some interp, some m)
  unfolding main_lookup
  main_lookup-some interp e = rw (e, main_lookup) refl

  main_lookup-none :
      userdata m ≡ none → main_lookup userdata (m ∷ ms) p ≡ main_lookup userdata ms (some m)
  unfolding main_lookup
  main_lookup-none e = rw (e, main_lookup) refl

-- Once `interp` is noted in the pool that was asked last, the search ends at that pool.
main_lookup-update :
    (userdata : ℕ → Option ℕ) (ms : List ℕ) (p : Option ℕ) (pool interp : ℕ)
    → p ≢ some pool
    → main_lookup userdata ms p ≡ (none, some pool)
    → main_lookup (update userdata pool (some interp)) ms p ≡ (some interp, some pool)
unfolding main_lookup
main_lookup-update userdata [] p pool interp k h = absurd (k (ap (λ q. q.1) h))
main_lookup-update userdata (m ∷ ms) p pool interp k h =
    let after : ℕ → Option ℕ = update userdata pool (some interp) in
    elim (Bool-cases (pool == m)) [
      | inl e ↦
          let same : pool ≡ m = (==_iff pool m).0 e in
          let here : after m ≡ some interp = rw e refl in
          main_lookup-some after m ms p interp here ∙ ap (λ q. (some interp, some q)) (sym same)
      | inr e ↦ elim (Option-cases (userdata m)) [
        | inl absent ↦
            let gone : after m ≡ none = rw e absent in
            let other : some m ≢ some pool = λ eq. ground (arith, eq, e) in
            main_lookup-none after m ms p gone
            ∙ main_lookup-update userdata ms (some m) pool interp other
                (sym (main_lookup-none userdata m ms p absent) ∙ h)
        | inr (j, found) ↦
            let both = sym h ∙ main_lookup-some userdata m ms p j found in
            absurd (ground (arith, ap (λ q. q.0) both))
      ]
    ]

request_lookup-update :
    (userdata : ℕ → Option ℕ) (r : Request) (scope : Scope) (pool interp : ℕ)
    → request_lookup userdata r scope ≡ (none, some pool)
    → request_lookup (update userdata pool (some interp)) r scope ≡ (some interp, some pool)
unfolding request_lookup
request_lookup-update userdata r scope pool interp h =
    elim (Bool-cases (is_subrequest r.mains && same_scope scope request)) [
      | inl e ↦
          let chosen = λ (u : ℕ → Option ℕ).
            ap (λ b. if b then main_lookup u r.mains none else (u r.pool, some r.pool)) e in
          chosen (update userdata pool (some interp))
          ∙ main_lookup-update userdata r.mains none pool interp (λ eq. ground (arith, eq))
              (sym (chosen userdata) ∙ h)
      | inr e ↦
          let chosen = λ (u : ℕ → Option ℕ).
            ap (λ b. if b then main_lookup u r.mains none else (u r.pool, some r.pool)) e in
          let both : (userdata r.pool, some r.pool) ≡ (none, some pool) =
            sym (chosen userdata) ∙ h in
          let same : r.pool ≡ pool = ground (arith, ap (λ q. q.1) both) in
          let noted : update userdata pool (some interp) r.pool ≡ some interp =
            ap (update userdata pool (some interp)) same
            ∙ update_self userdata pool (some interp) in
          chosen (update userdata pool (some interp)) ∙ ap₂ (λ f q. (f, some q)) noted same
    ]

connection_lookup-none :
    (userdata : ℕ → Option ℕ) (r : Request) (found : Option ℕ × Option ℕ) (pool : ℕ)
    → connection_lookup userdata r found ≡ (none, some pool)
    → found ≡ (none, some pool)
unfolding connection_lookup
connection_lookup-none userdata r (some interp, p) pool h = absurd (ground (arith, ap (λ q. q.0) h))
connection_lookup-none userdata r (none, p) pool h = ap (λ q. (none, q)) (ap (λ q. q.1) h)

else_lookup-update :
    (userdata : ℕ → Option ℕ) (r : Option Request) (scope : Scope) (pool interp : ℕ)
    → else_lookup userdata r scope ≡ (none, some pool)
    → (else_lookup (update userdata pool (some interp)) r scope).0 ≡ some interp
unfolding else_lookup connection_lookup
else_lookup-update userdata none scope pool interp h = absurd (ground (arith, ap (λ q. q.1) h))
else_lookup-update userdata (some r) scope pool interp h =
    let asked = connection_lookup-none userdata r (request_lookup userdata r scope) pool h in
    ap (λ found. (connection_lookup (update userdata pool (some interp)) r found).0)
      (request_lookup-update userdata r scope pool interp asked)

-- Where nothing was found, an interpreter that is noted in the pool that was asked is found next.
pub pool_lookup-update :
    (userdata : ℕ → Option ℕ) (r : Option Request) (c : Option ℕ) (scope : Scope) (pool interp : ℕ)
    → pool_lookup userdata r c scope ≡ (none, some pool)
    → (pool_lookup (update userdata pool (some interp)) r c scope).0 ≡ some interp
unfolding pool_lookup
pool_lookup-update userdata r none scope pool interp h =
    else_lookup-update userdata r scope pool interp h
pool_lookup-update userdata r (some c) scope pool interp h =
    let after : ℕ → Option ℕ = update userdata pool (some interp) in
    elim (Bool-cases (same_scope scope connection)) [
      | inl e ↦
          let chosen =
            λ (u : ℕ → Option ℕ). ap (λ b. if b then (u c, some c) else else_lookup u r scope) e in
          let both = sym (chosen userdata) ∙ h in
          let same : c ≡ pool = ground (arith, ap (λ q. q.1) both) in
          ap (λ q. q.0) (chosen after) ∙ ap after same ∙ update_self userdata pool (some interp)
      | inr e ↦
          let chosen =
            λ (u : ℕ → Option ℕ). ap (λ b. if b then (u c, some c) else else_lookup u r scope) e in
          ap (λ q. q.0) (chosen after)
          ∙ else_lookup-update userdata r scope pool interp (sym (chosen userdata) ∙ h)
    ]

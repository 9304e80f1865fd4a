-- ===== src/Handler/Lookup/Requests.antt =====
-- Handlers that a request pushes or sets, against those that the configuration has.
use mod_perl.Prelude.{
  ℕ, ◌≡◌, refl, sym, ap, ◌∙◌, Bool, true, false, ◌&&◌, Option, none, some, List, [], ◌∷◌, ◌++◌,
  ◌==◌, ==_refl, if◌then◌else◌, Option-cases, inl, inr, ◌⊎◌, append-nil, append_assoc, arith,
}
use mod_perl.Mgv.{separator}
use mod_perl.Handler.{Handler, handler_new}
use mod_perl.Handler.Lookup.{
  HandlerType, per_dir, per_srv, pre_connection, connection, files, process, ArrayAction,
  push_action, set_action, Config, RequestConfig, has_request_arrays, or_new, same_type, put,
  act_on_request, place_of, array_at, pushed_at, lookup_handlers, Sv, pv, cv, anon_cv, other_sv,
  new_from_sv, push_svs, add_handlers, phase_handlers, in_request,
}

-- The handlers that the arguments name, each marked as made at run time, in the arguments' order.
abbrev pub made : List Sv → List Handler
made [] = []
made (sv ∷ svs) = elim (new_from_sv sv) [
  | none ↦ made svs
  | some h ↦ record h { dynamic = true } ∷ made svs
]

-- The same type and index.
abbrev pub same_phase : HandlerType → ℕ → HandlerType → ℕ → Bool
same_phase t i type idx = same_type t type && (i == idx)

abbrev marked : Handler → Handler
marked h = record h { dynamic = true }

with_one :
    (h : Handler) (av : List Handler) (svs : List Sv)
    → push_svs (av ++ (marked h ∷ [])) svs ≡ (av ++ (marked h ∷ [])) ++ made svs
    → push_svs (av ++ (marked h ∷ [])) svs ≡ av ++ (marked h ∷ made svs)
with_one h av svs e = e ∙ append_assoc av (marked h ∷ []) (made svs)

push_svs_lem : (av : List Handler) (svs : List Sv) → push_svs av svs ≡ av ++ made svs
unfolding push_svs new_from_sv
push_svs_lem av [] = sym (append-nil av)
push_svs_lem av (pv name ∷ svs) =
    with_one (handler_new name) av svs (push_svs_lem (av ++ (marked (handler_new name) ∷ [])) svs)
push_svs_lem av (cv stash name ∷ svs) =
    let h = handler_new (stash ++ (separator ++ name)) in
    with_one h av svs (push_svs_lem (av ++ (marked h ∷ [])) svs)
push_svs_lem av (anon_cv h ∷ svs) = with_one h av svs (push_svs_lem (av ++ (marked h ∷ [])) svs)
push_svs_lem av (other_sv ∷ svs) = push_svs_lem av svs

-- The array of the request, if it has one, is used instead of the configured array.
abbrev over : Option (List Handler) → Option (List Handler) → Option (List Handler)
over none av = av
over (some rav) av = some rav

same_type_refl : (t : HandlerType) → same_type t t ≡ true
same_type_refl per_dir = refl
same_type_refl per_srv = refl
same_type_refl pre_connection = refl
same_type_refl connection = refl
same_type_refl files = refl
same_type_refl process = refl

put_same :
    (r : Config) (type : HandlerType) (idx : ℕ) (v : Option (List Handler))
    → put r type idx v type idx ≡ v
put_same r type idx v = rw (same_type_refl type, ==_refl idx) refl

put_other :
    (r : Config) (type : HandlerType) (idx : ℕ) (v : Option (List Handler)) (t : HandlerType)
    (i : ℕ)
    → same_phase t i type idx ≡ false
    → put r type idx v t i ≡ r t i
put_other r type idx v t i h = ground arith

request_array :
    (cfg : Config) (req : RequestConfig) (type : HandlerType) (idx : ℕ)
    → (req type idx ≡ none) ⊎ ((av : List Handler) × (req type idx ≡ some av))
    → array_at cfg (some (put req type idx (req type idx))) type idx (place_of (req type idx))
      ≡ over (req type idx) (cfg type idx)
unfolding place_of
request_array cfg req type idx (inl e) = rw e refl
request_array cfg req type idx (inr (av, e)) = rw e (put_same req type idx (some av))

phase_handlers_lem :
    (cfg : Config) (req : RequestConfig) (type : HandlerType) (idx : ℕ)
    → phase_handlers cfg (some req) type idx
      ≡ (if has_request_arrays type then over (req type idx) (cfg type idx) else cfg type idx)
unfolding phase_handlers lookup_handlers act_on_request place_of
phase_handlers_lem cfg req per_dir idx =
    request_array cfg req per_dir idx (Option-cases (req per_dir idx))
phase_handlers_lem cfg req per_srv idx =
    request_array cfg req per_srv idx (Option-cases (req per_srv idx))
phase_handlers_lem cfg req pre_connection idx = refl
phase_handlers_lem cfg req connection idx = refl
phase_handlers_lem cfg req files idx = refl
phase_handlers_lem cfg req process idx = refl

lookup_handlers-request :
    (cfg : Config) (req : RequestConfig) (type : HandlerType) (idx : ℕ) (action : ArrayAction)
    (base : List Handler)
    → has_request_arrays type ≡ true
    → act_on_request action (cfg type idx) (req type idx) ≡ some base
    → lookup_handlers cfg (some req) type idx action
      ≡ some (cfg, some (put req type idx (some base)), in_request)
unfolding lookup_handlers place_of
lookup_handlers-request cfg req type idx action base h e =
    rw (h, lookup_handlers) (rw (e, place_of) refl)

-- A push or a set of the array that the request is to have, `base` before what is pushed.
add_handlers-request :
    (cfg : Config) (req : RequestConfig) (type : HandlerType) (idx : ℕ) (svs : List Sv)
    (action : ArrayAction) (base : List Handler)
    → has_request_arrays type ≡ true
    → act_on_request action (cfg type idx) (req type idx) ≡ some base
    → add_handlers cfg (some req) type idx svs action
      ≡ some (cfg, some (put (put req type idx (some base)) type idx (some (base ++ made svs))))
unfolding add_handlers
add_handlers-request cfg req type idx svs action base h e =
    let there = put_same req type idx (some base) in
    rw (lookup_handlers-request cfg req type idx action base h e, add_handlers)
      (rw (there, pushed_at) (rw (push_svs_lem base svs) refl))

-- The configuration of the request behind a push or set, by the array `av` that it had in between.
abbrev behind : RequestConfig → HandlerType → ℕ → List Handler → List Handler → RequestConfig
behind req type idx base av = put (put req type idx (some base)) type idx (some av)

phase_handlers-behind :
    (cfg : Config) (req : RequestConfig) (type : HandlerType) (idx : ℕ) (base av : List Handler)
    → has_request_arrays type ≡ true
    → phase_handlers cfg (some (behind req type idx base av)) type idx ≡ some av
phase_handlers-behind cfg req type idx base av h =
    phase_handlers_lem cfg (behind req type idx base av) type idx
    ∙ rw h (rw (put_same (put req type idx (some base)) type idx (some av)) refl)

phase_handlers-others :
    (cfg : Config) (req : RequestConfig) (type : HandlerType) (idx : ℕ) (base av : List Handler)
    (t : HandlerType) (i : ℕ)
    → same_phase t i type idx ≡ false
    → phase_handlers cfg (some (behind req type idx base av)) t i
      ≡ phase_handlers cfg (some req) t i
phase_handlers-others cfg req type idx base av t i other =
    let kept : behind req type idx base av t i ≡ req t i =
      put_other (put req type idx (some base)) type idx (some av) t i other
      ∙ put_other req type idx (some base) t i other in
    phase_handlers_lem cfg (behind req type idx base av) t i
    ∙ ap (λ r. if has_request_arrays t then over r (cfg t i) else cfg t i) kept
    ∙ sym (phase_handlers_lem cfg req t i)

act_on_request-push :
    (av rav : Option (List Handler))
    → act_on_request push_action av rav ≡ some (or_new (over rav av))
unfolding act_on_request
act_on_request-push av none = refl
act_on_request-push av (some rav) = refl

act_on_request-set : (av rav : Option (List Handler)) → act_on_request set_action av rav ≡ some []
unfolding act_on_request
act_on_request-set av rav = refl

-- For a type of which requests have arrays, a push at request time appends the handlers to those
-- that the phase would have run so far, be they configured or pushed before; no configuration and
-- no other phase changes.
pub add_handlers-push :
    (cfg : Config) (req : RequestConfig) (type : HandlerType) (idx : ℕ) (svs : List Sv)
    → has_request_arrays type ≡ true
    → (req' : RequestConfig) × (add_handlers cfg (some req) type idx svs push_action
        ≡ some (cfg, some req'))
      × (phase_handlers cfg (some req') type idx
          ≡ some (or_new (phase_handlers cfg (some req) type idx) ++ made svs))
      × ((t : HandlerType) (i : ℕ)
          → same_phase t i type idx ≡ false
          → phase_handlers cfg (some req') t i ≡ phase_handlers cfg (some req) t i)
add_handlers-push cfg req type idx svs h =
    let base = or_new (over (req type idx) (cfg type idx)) in
    let used : phase_handlers cfg (some req) type idx ≡ over (req type idx) (cfg type idx) =
      phase_handlers_lem cfg req type idx ∙ rw h refl in
    let ran : base ≡ or_new (phase_handlers cfg (some req) type idx) =
      sym (ap (λ o. or_new o) used) in
    (
      behind req type idx base (base ++ made svs),
      add_handlers-request cfg req type idx svs push_action base h
          (act_on_request-push (cfg type idx) (req type idx)),
      phase_handlers-behind cfg req type idx base (base ++ made svs) h
          ∙ ap (λ b. some (b ++ made svs)) ran,
      phase_handlers-others cfg req type idx base (base ++ made svs),
    )

-- For a type of which requests have arrays, a set at request time makes the phase run these
-- handlers alone; no configuration and no other phase changes.
pub add_handlers-set :
    (cfg : Config) (req : RequestConfig) (type : HandlerType) (idx : ℕ) (svs : List Sv)
    → has_request_arrays type ≡ true
    → (req' : RequestConfig) × (add_handlers cfg (some req) type idx svs set_action
        ≡ some (cfg, some req'))
      × (phase_handlers cfg (some req') type idx ≡ some (made svs))
      × ((t : HandlerType) (i : ℕ)
          → same_phase t i type idx ≡ false
          → phase_handlers cfg (some req') t i ≡ phase_handlers cfg (some req) t i)
add_handlers-set cfg req type idx svs h = (
  behind req type idx [] (made svs),
  add_handlers-request cfg req type idx svs set_action [] h
      (act_on_request-set (cfg type idx) (req type idx)),
  phase_handlers-behind cfg req type idx [] (made svs) h,
  phase_handlers-others cfg req type idx [] (made svs),
)

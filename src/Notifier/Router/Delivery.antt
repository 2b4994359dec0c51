-- ===== src/Notifier/Router/Delivery.antt =====
-- Which channels `notify` of router.py tries, and what its result says of them.
use investment_intelligence.Prelude.{
  ℕ, ◌≡◌, ◌≢◌, ◌↔◌, ◌⊎◌, refl, sym, ap, ◌∙◌, true, false, Option, none, some, List, [], ◌∷◌, ◌++◌,
  String, All, Bool-cases, inl, inr,
}
use mathlib.Core.Path.{subst}
use mathlib.Core.List.{append-nil}
use investment_intelligence.Prelude.Keys.{String-keys}
use investment_intelligence.Prelude.Dict.{Dict, lookup}
use investment_intelligence.Prelude.Outcome.{Result, ok, err}
use investment_intelligence.Notifier.RateLimit.{Limits}
use investment_intelligence.Notifier.Router.Traces.{Begun, try_adapter-Attempted, run_plan-Begun}
use investment_intelligence.Notifier.Router.{
  Severity, info, warn, alert, critical, Notification, Adapter, AdapterAttempt, NotifyResult,
  NotifyError, notify_exhausted, present, single, severity_to_channels, State, try_adapter,
  run_cascade, run_parallel, run_plan, any_succeeded, check_exhausted, deliver, notify,
}

-- The channels that are configured, in the order of preference.
abbrev pub channels : {W : Type 0} → Dict String (Adapter W) → List (Adapter W)
channels by_name = present (
    lookup "wecom_bot" by_name
    ∷ lookup "serverchan" by_name
    ∷ lookup "ntfy" by_name
    ∷ lookup "smtp" by_name
    ∷ [])

present-append {ℓ} :
    {A : Type ℓ} (xs ys : List (Option A)) → present (xs ++ ys) ≡ present xs ++ present ys
present-append [] ys = refl
present-append (none ∷ xs) ys = present-append xs ys
present-append (some x ∷ xs) ys = ap (λ zs. x ∷ zs) (present-append xs ys)

single_all :
    {W : Type 0} (wecom : Option (Adapter W)) (rest : List (Option (Adapter W)))
    → (single wecom (present rest)).primary ++ (single wecom (present rest)).fallbacks
      ≡ present (wecom ∷ rest)
single_all (some a) rest = refl
single_all none rest =
    elim (present rest) as (λ p. (single none p).primary ++ (single none p).fallbacks ≡ p) [
      | [] ↦ refl
      | x ∷ xs ↦ refl
    ]

single_serial :
    {W : Type 0} (wecom : Option (Adapter W)) (rest : List (Adapter W))
    → (single wecom rest).parallel ≡ false
single_serial (some a) rest = refl
single_serial none [] = refl
single_serial none (x ∷ xs) = refl

-- Every severity reaches all configured channels, in the same order of preference.
pub plan_all :
    {W : Type 0} (severity : Severity) (by_name : Dict String (Adapter W))
    → (severity_to_channels severity by_name).primary
        ++ (severity_to_channels severity by_name).fallbacks
      ≡ channels by_name
unfolding severity_to_channels
plan_all critical by_name = append-nil (channels by_name)
plan_all alert by_name = sym (
    present-append (lookup "wecom_bot" by_name ∷ lookup "serverchan" by_name ∷ [])
      (lookup "ntfy" by_name ∷ lookup "smtp" by_name ∷ []))
plan_all info by_name =
    single_all (lookup "wecom_bot" by_name)
      (lookup "serverchan" by_name ∷ lookup "ntfy" by_name ∷ lookup "smtp" by_name ∷ [])
plan_all warn by_name =
    single_all (lookup "wecom_bot" by_name)
      (lookup "serverchan" by_name ∷ lookup "ntfy" by_name ∷ lookup "smtp" by_name ∷ [])

abbrev pub names : List AdapterAttempt → List String
names [] = []
names (a ∷ attempts) = a.name ∷ names attempts

abbrev pub adapter_names : {W : Type 0} → List (Adapter W) → List String
adapter_names [] = []
adapter_names (a ∷ chain) = a.name ∷ adapter_names chain

abbrev pub Failed : AdapterAttempt → Type 0
Failed a = a.succeeded ≡ false

-- Every attempt but the last failed.
abbrev pub FailedInit : List AdapterAttempt → Type 0
FailedInit [] = Unit
FailedInit (a ∷ []) = Unit
FailedInit (a ∷ b ∷ attempts) = Failed a × FailedInit (b ∷ attempts)

abbrev pub Prefix : List String → List String → Type 0
Prefix xs ys = (rest : List String) × (xs ++ rest ≡ ys)

FailedInit-cons :
    (a : AdapterAttempt) (attempts : List AdapterAttempt)
    → Failed a
    → FailedInit attempts
    → FailedInit (a ∷ attempts)
FailedInit-cons a [] f h = tt
FailedInit-cons a (b ∷ attempts) f h = (f, h)

All-Failed_iff :
    (attempts : List AdapterAttempt) → (any_succeeded attempts ≡ false) ↔ All Failed attempts
All-Failed_iff [] = (λ h. tt, λ h. refl)
All-Failed_iff (a ∷ attempts) = elim (Bool-cases a.succeeded) [
  | inl good ↦ rw good (λ h. absurd (cc), λ h. absurd (cc))
  | inr bad ↦
      rw bad (λ h. (refl, (All-Failed_iff attempts).0 h), λ h. (All-Failed_iff attempts).1 h.1)
]

critical_or_not : (s : Severity) → (s ≡ critical) ⊎ (s ≢ critical)
critical_or_not critical = inl refl
critical_or_not info = inr (λ e. cc)
critical_or_not warn = inr (λ e. cc)
critical_or_not alert = inr (λ e. cc)

bool_absurd : true ≡ false → ⊥
bool_absurd h = cc

plan_serial :
    {W : Type 0} (severity : Severity) (by_name : Dict String (Adapter W))
    → severity ≢ critical
    → (severity_to_channels severity by_name).parallel ≡ false
unfolding severity_to_channels
plan_serial critical by_name ne = absurd (ne refl)
plan_serial alert by_name ne = refl
plan_serial info by_name ne =
    single_serial (lookup "wecom_bot" by_name)
      (present (lookup "serverchan" by_name ∷ lookup "ntfy" by_name ∷ lookup "smtp" by_name ∷ []))
plan_serial warn by_name ne =
    single_serial (lookup "wecom_bot" by_name)
      (present (lookup "serverchan" by_name ∷ lookup "ntfy" by_name ∷ lookup "smtp" by_name ∷ []))

module _ {W : Type 0} (limits : Limits) (clock : W → ℕ) where
  try_adapter_name :
      (adapter : Adapter W) (n : Notification) (s : State W)
      → (try_adapter limits clock adapter n s).0.name ≡ adapter.name
  try_adapter_name adapter n s = (try_adapter-Attempted limits clock n adapter s).name

  record Cascaded (chain : List (Adapter W)) (attempts : List AdapterAttempt) : Type 0 where
    tried : Prefix (names attempts) (adapter_names chain)
    stops : FailedInit attempts
    exhausts : All Failed attempts → names attempts ≡ adapter_names chain

  Cascaded-cons :
      (adapter : Adapter W) (chain : List (Adapter W)) (a : AdapterAttempt)
      (attempts : List AdapterAttempt)
      → a.name ≡ adapter.name
      → Failed a
      → Cascaded chain attempts
      → Cascaded (adapter ∷ chain) (a ∷ attempts)
  Cascaded-cons adapter chain a attempts e f h = record {
    tried = (h.tried.0, ap (λ xs. a.name ∷ xs) h.tried.1 ∙ ap (λ x. x ∷ adapter_names chain) e);
    stops = FailedInit-cons a attempts f h.stops;
    exhausts = λ p. ap (λ xs. a.name ∷ xs) (h.exhausts p.1) ∙ ap (λ x. x ∷ adapter_names chain) e;
  }

  run_cascade-Cascaded :
      (chain : List (Adapter W)) (n : Notification) (s : State W)
      → Cascaded chain (run_cascade limits clock chain n s).0
  unfolding run_cascade
  run_cascade-Cascaded [] n s = record { tried = ([], refl); stops = tt; exhausts = λ h. refl }
  run_cascade-Cascaded (adapter ∷ chain) n s =
      let tried = try_adapter limits clock adapter n s in
      elim (Bool-cases tried.0.succeeded) [
        | inl good ↦
            rw (good, run_cascade)
              (record {
                tried = (
                  adapter_names chain,
                  ap (λ x. x ∷ adapter_names chain) (try_adapter_name adapter n s),
                );
                stops = tt;
                exhausts = λ h. absurd (cc);
              })
        | inr bad ↦
            rw (bad, run_cascade)
              (Cascaded-cons adapter chain tried.0 (run_cascade limits clock chain n tried.1).0
                (try_adapter_name adapter n s) bad (run_cascade-Cascaded chain n tried.1))
      ]

  run_parallel_names :
      (chain : List (Adapter W)) (n : Notification) (s : State W)
      → names (run_parallel limits clock chain n s).0 ≡ adapter_names chain
  unfolding run_parallel
  run_parallel_names [] n s = refl
  run_parallel_names (adapter ∷ chain) n s =
      let tried = try_adapter limits clock adapter n s in
      ap (λ x. x ∷ names (run_parallel limits clock chain n tried.1).0)
        (try_adapter_name adapter n s)
      ∙ ap (λ xs. adapter.name ∷ xs) (run_parallel_names chain n tried.1)

  run_plan-Cascaded :
      (adapters : Dict String (Adapter W)) (n : Notification) (s : State W)
      → n.severity ≢ critical
      → Cascaded (channels adapters) (deliver limits clock adapters n s).0
  unfolding deliver
  run_plan-Cascaded adapters n s ne =
      let plan = severity_to_channels n.severity adapters in
      let all = plan_all n.severity adapters in
      rw (plan_serial n.severity adapters ne, deliver)
        (subst
          (λ chain.
            Cascaded chain (run_cascade limits clock (plan.primary ++ plan.fallbacks) n s).0)
          all (run_cascade-Cascaded (plan.primary ++ plan.fallbacks) n s))

  deliver_parallel :
      (adapters : Dict String (Adapter W)) (n : Notification) (s : State W)
      → n.severity ≡ critical
      → names (deliver limits clock adapters n s).0 ≡ adapter_names (channels adapters)
  unfolding deliver severity_to_channels
  deliver_parallel adapters n s e =
      subst
        (λ severity.
          names (run_plan limits clock (severity_to_channels severity adapters) n s).0
          ≡ adapter_names (channels adapters))
        (sym e) (run_parallel_names (channels adapters) n s)

deliver-Begun :
    {W : Type 0} (limits : Limits) (clock : W → ℕ) (adapters : Dict String (Adapter W))
    (n : Notification) (s : State W)
    → Begun limits clock n
        (channels adapters)
        s
        (deliver limits clock adapters n s).0
        (deliver limits clock adapters n s).1
unfolding deliver
deliver-Begun limits clock adapters n s =
    let plan = severity_to_channels n.severity adapters in
    subst
      (λ chain.
        Begun limits clock n chain s (run_plan limits clock plan n s).0
          (run_plan limits clock plan n s).1)
      (plan_all n.severity adapters)
      (run_plan-Begun limits clock n plan.primary plan.fallbacks plan.parallel s)

-- What one notification tries at the state `s`, the state that it leaves, and what its outcome says.
pub record Delivered {W : Type 0} (limits : Limits) (clock : W → ℕ)
    (adapters : Dict String (Adapter W)) (n : Notification) (s : State W)
    (attempts : List AdapterAttempt) (notified : Result NotifyError NotifyResult × State W)
    : Type 0 where
  pub trace : Begun limits clock n (channels adapters) s attempts notified.1
  pub tried : Prefix (names attempts) (adapter_names (channels adapters))
  pub one_by_one : n.severity ≢ critical → FailedInit attempts
  pub fans_out : n.severity ≡ critical → names attempts ≡ adapter_names (channels adapters)
  pub exhausts : All Failed attempts → names attempts ≡ adapter_names (channels adapters)
  pub raises_iff : (notified.0 ≡ err (notify_exhausted n.severity)) ↔ All Failed attempts
  pub returns : (r : NotifyResult) → notified.0 ≡ ok r → r.attempts ≡ attempts

raises_iff_Failed :
    (n : Notification) (attempts : List AdapterAttempt)
    → (check_exhausted n attempts ≡ err (notify_exhausted n.severity)) ↔ All Failed attempts
raises_iff_Failed n attempts = elim (Bool-cases (any_succeeded attempts)) [
  | inl good ↦
      rw good
        (λ h. absurd (cc), λ h. absurd (bool_absurd (sym good ∙ (All-Failed_iff attempts).1 h)))
  | inr bad ↦ rw bad (λ h. (All-Failed_iff attempts).0 bad, λ h. refl)
]

returned_attempts :
    (n : Notification) (attempts : List AdapterAttempt) (r : NotifyResult)
    → check_exhausted n attempts ≡ ok r
    → r.attempts ≡ attempts
returned_attempts n attempts r = elim (Bool-cases (any_succeeded attempts)) [
  | inl good ↦ rw good (λ h. cc)
  | inr bad ↦ rw bad (λ h. absurd (cc))
]

-- A notification makes attempts at a prefix of the configured channels, in the order of preference, and
-- changes nothing else. An attempt asks the limiter for the channel's key; where that grants it, the
-- channel's `send` is called once, and the attempt succeeded exactly when `send` did not raise; where it
-- refuses, nothing is sent. Below critical the channels are tried one by one up to the first success,
-- and any exception of a `send`, AdapterRejected also, leads to the next one; a critical notification
-- tries all, here one after the other. It raises exactly when all attempts failed, and then no configured channel was left out;
-- the result that it returns lists all attempts.
pub notify-Delivered :
    {W : Type 0} (limits : Limits) (clock : W → ℕ) (adapters : Dict String (Adapter W))
    (n : Notification) (s : State W)
    → Delivered limits clock adapters n s
        (deliver limits clock adapters n s).0
        (notify limits clock adapters n s)
unfolding notify
notify-Delivered limits clock adapters n s =
    let attempts = (deliver limits clock adapters n s).0 in
    elim (critical_or_not n.severity) [
      | inl e ↦
          let all = deliver_parallel limits clock adapters n s e in
          record {
            trace = deliver-Begun limits clock adapters n s;
            tried = ([], append-nil (names attempts) ∙ all);
            one_by_one = λ ne. absurd (ne e);
            fans_out = λ _. all;
            exhausts = λ _. all;
            raises_iff = raises_iff_Failed n attempts;
            returns = returned_attempts n attempts;
          }
      | inr ne ↦
          let c = run_plan-Cascaded limits clock adapters n s ne in
          record {
            trace = deliver-Begun limits clock adapters n s;
            tried = c.tried;
            one_by_one = λ _. c.stops;
            fans_out = λ e. absurd (ne e);
            exhausts = c.exhausts;
            raises_iff = raises_iff_Failed n attempts;
            returns = returned_attempts n attempts;
          }
    ]

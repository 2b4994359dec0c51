-- ===== src/LlmClient/CostMeter/Budget.antt =====
-- What the budget of cost_meter.py lets through.
use investment_intelligence.Prelude.{
  ℕ, ◌+◌, ◌≤◌, ◌<◌, ◌≡◌, ◌⊎◌, refl, sym, ◌∙◌, Bool, true, false, ◌&&◌, some, List, [], ◌∷◌, leb,
  if◌then◌else◌, arith, Bool-cases, inl, inr,
}
use investment_intelligence.LlmClient.Matrix.{LlmTier}
use investment_intelligence.LlmClient.CostMeter.{
  SpendKey, same_bool, same_key, Rows, add_cost, counts, total_spend, BreakerState, closed, opened,
  half_open, Config, CostMeter, reaches, check_caps, allow, record_cost,
}

same_bool_lem : (a b : Bool) → same_bool a b ≡ true → a ≡ b
same_bool_lem true b h = sym h
same_bool_lem false false h = refl
same_bool_lem false true h = cc

counts_same :
    (today : ℕ) (only : Bool) (a b : SpendKey)
    → same_key a b ≡ true
    → counts today only a ≡ counts today only b
counts_same today only a b h =
    let fb : a.fallback ≡ b.fallback = same_bool_lem a.fallback b.fallback (ground arith) in
    let same_day : a.day ≡ b.day = ground arith in cc (fb, same_day)

-- Recording a cost adds it to every total that counts its key.
total_spend-add_cost :
    (today : ℕ) (only : Bool) (key : SpendKey) (cost : ℕ) (rows : Rows)
    → total_spend today only (add_cost key cost rows)
      ≡ (if counts today only key then cost else 0) + total_spend today only rows
total_spend-add_cost today only key cost [] = refl
total_spend-add_cost today only key cost ((k, c) ∷ rows) = elim (Bool-cases (same_key k key)) [
  | inl hit ↦ rw hit (rw (counts_same today only k key hit) (ground arith))
  | inr miss ↦ rw miss (omega (arith, total_spend-add_cost today only key cost rows))
]

-- Old spend leaves the window as the days pass.
total_spend-later :
    (today later : ℕ) (only : Bool) (rows : Rows)
    → today ≤ later
    → total_spend later only rows ≤ total_spend today only rows
total_spend-later today later only [] h = omega arith
total_spend-later today later only ((k, c) ∷ rows) h =
    ground (arith, total_spend-later today later only rows h)

module _ (cfg : Config) where
  pub allow_rows :
      (now today : ℕ) (fallback : Bool) (m : CostMeter)
      → (allow cfg now today fallback m).1.rows ≡ m.rows
  unfolding allow
  allow_rows now today fallback m = ground arith

  pub allow_below :
      (now today : ℕ) (fallback : Bool) (m : CostMeter)
      → (allow cfg now today fallback m).0 ≡ true
      → (reaches (total_spend today false m.rows) cfg.monthly_cap_usd ≡ false)
        × (fallback ≡ true → reaches (total_spend today true m.rows) cfg.fallback_cap_usd ≡ false)
  unfolding allow
  allow_below now today fallback m h = (ground arith, λ f. ground arith)

  -- What a refusal leaves: an open breaker, opened now or earlier and still cooling, that refuses
  -- whatever is asked, and whatever has been spent, until the cooldown has passed.
  pub record Refused (now : ℕ) (before after : CostMeter) : Type 0 where
    pub opened_now :
        (after.opened_at ≡ now)
        ⊎ ((before.state ≡ opened)
            × (after.opened_at ≡ before.opened_at)
            × (now < before.opened_at + cfg.cooldown_seconds))
    pub refuses :
        (later today : ℕ) (fallback : Bool) (rows : Rows)
        → later < after.opened_at + cfg.cooldown_seconds
        → (allow cfg later today fallback (record after { rows = rows })).0 ≡ false

  opened_refuses :
      (rows : Rows) (opened_at later today : ℕ) (fallback : Bool)
      → later < opened_at + cfg.cooldown_seconds
      → (allow cfg later today fallback
          (record { rows = rows; state = opened; opened_at = opened_at })).0
        ≡ false
  unfolding allow
  opened_refuses rows opened_at later today fallback h =
      let cooling : leb (opened_at + cfg.cooldown_seconds) later ≡ false = ground arith in
      rw (cooling, allow) refl

  -- A refusal by the caps opens the breaker.
  caps_refuse :
      (now today : ℕ) (fallback : Bool) (m before : CostMeter)
      → (check_caps cfg now today fallback m).0 ≡ false
      → Refused now before (check_caps cfg now today fallback m).1
  caps_refuse now today fallback m before =
      let open_now : Refused now before (record m { state = opened; opened_at = now }) = record {
        opened_now = inl refl;
        refuses = λ later day fb rows h. opened_refuses rows now later day fb h;
      } in
      elim (Bool-cases (reaches (total_spend today false m.rows) cfg.monthly_cap_usd)) [
        | inl spent ↦ rw spent (λ h. open_now)
        | inr below ↦
            elim (Bool-cases
              (fallback && reaches (total_spend today true m.rows) cfg.fallback_cap_usd)) [
                | inl spent ↦ rw (below, spent) (λ h. open_now)
                | inr free ↦ rw (below, free) (λ h. absurd (cc))
              ]
      ]

  refusal_of :
      (rows : Rows) (s : BreakerState) (opened_at now today : ℕ) (fallback : Bool)
      → (allow cfg now today fallback (record { rows = rows; state = s; opened_at = opened_at })).0
        ≡ false
      → Refused now
          (record { rows = rows; state = s; opened_at = opened_at })
          (allow cfg now today fallback
            (record { rows = rows; state = s; opened_at = opened_at })).1
  unfolding allow
  refusal_of rows closed opened_at now today fallback =
      let m : CostMeter = record { rows = rows; state = closed; opened_at = opened_at } in
      caps_refuse now today fallback m m
  refusal_of rows half_open opened_at now today fallback =
      let m : CostMeter = record { rows = rows; state = half_open; opened_at = opened_at } in
      caps_refuse now today fallback m m
  refusal_of rows opened opened_at now today fallback =
      let m : CostMeter = record { rows = rows; state = opened; opened_at = opened_at } in
      elim (Bool-cases (leb (opened_at + cfg.cooldown_seconds) now)) [
        | inl cooled ↦
            rw (cooled, allow) (caps_refuse now today fallback (record m { state = half_open }) m)
        | inr cooling ↦
            rw (cooling, allow)
              (λ h. record {
                opened_now = inr (refl, refl, ground arith);
                refuses = λ later day fb rows' t. opened_refuses rows' opened_at later day fb t;
              })
      ]

  -- Once the meter has refused a call, its breaker is open, since now or since an earlier opening whose
  -- cooldown runs, and every call before the end of the cooldown is refused, also when the spend has
  -- fallen below the caps.
  pub refusal_holds :
      (now today : ℕ) (fallback : Bool) (m : CostMeter)
      → (allow cfg now today fallback m).0 ≡ false
      → Refused now m (allow cfg now today fallback m).1
  refusal_holds now today fallback m h = refusal_of m.rows m.state m.opened_at now today fallback h

-- One call of a model: the time and day, whether the fallback answers it, and what it costs.
pub record Use : Type 0 where
  pub now : ℕ
  pub today : ℕ
  pub tier : LlmTier
  pub fallback : Bool
  pub cost : ℕ

abbrev settle : Use → Bool × CostMeter → CostMeter
settle u (false, m) = m
settle u (true, m) = record_cost u.today u.tier u.fallback u.cost m

abbrev second_gate : Config → Use → Bool → CostMeter → Bool × CostMeter
second_gate cfg u false m = (true, m)
second_gate cfg u true m = allow cfg u.now u.today true m

abbrev ask_fallback : Config → Use → Bool × CostMeter → Bool × CostMeter
ask_fallback cfg u (false, m) = (false, m)
ask_fallback cfg u (true, m) = second_gate cfg u u.fallback m

-- The meter over one call of `chat`: the gate, the second gate where the fallback answers, the record.
unfoldable pub spend : Config → Use → CostMeter → CostMeter
spend cfg u m = settle u (ask_fallback cfg u (allow cfg u.now u.today false m))

abbrev pub spend_all : Config → List Use → CostMeter → CostMeter
spend_all cfg [] m = m
spend_all cfg (u ∷ us) m = spend_all cfg us (spend cfg u m)

-- The days do not run back, and no call costs more than `most`.
abbrev pub Dated : ℕ → ℕ → List Use → Type 0
Dated most day [] = Unit
Dated most day (u ∷ us) = (day ≤ u.today) × (u.cost ≤ most) × Dated most u.today us

abbrev pub last_day : ℕ → List Use → ℕ
last_day day [] = day
last_day day (u ∷ us) = last_day u.today us

abbrev pub capped : ℕ → ℕ → ℕ → Config
capped cap fallback_cap cooldown = record {
  monthly_cap_usd = some cap;
  fallback_cap_usd = some fallback_cap;
  cooldown_seconds = cooldown;
}

-- The spend of the window that ends at `day`.
pub record IsWithin (cap fallback_cap most day : ℕ) (m : CostMeter) : Type 0 where
  pub monthly : total_spend day false m.rows ≤ cap + most
  pub fallback : total_spend day true m.rows ≤ fallback_cap + most

module _ (cap fallback_cap cooldown most : ℕ) where
  IsWithin-later :
      (day later : ℕ) (m : CostMeter)
      → day ≤ later
      → IsWithin cap fallback_cap most day m
      → IsWithin cap fallback_cap most later m
  IsWithin-later day later m le h = record {
    monthly = omega (arith, total_spend-later day later false m.rows le, h.monthly);
    fallback = omega (arith, total_spend-later day later true m.rows le, h.fallback);
  }

  IsWithin-rows :
      (day : ℕ) (m m' : CostMeter)
      → m'.rows ≡ m.rows
      → IsWithin cap fallback_cap most day m
      → IsWithin cap fallback_cap most day m'
  IsWithin-rows day m m' e h = record { monthly = rw e (h.monthly); fallback = rw e (h.fallback) }

  IsWithin-record :
      (u : Use) (m : CostMeter)
      → total_spend u.today false m.rows < cap
      → (u.fallback ≡ true → total_spend u.today true m.rows < fallback_cap)
      → u.cost ≤ most
      → IsWithin cap fallback_cap most u.today m
      → IsWithin cap fallback_cap most u.today (record_cost u.today u.tier u.fallback u.cost m)
  unfolding record_cost
  IsWithin-record u m below fb c h =
      let k : SpendKey = record { day = u.today; tier = u.tier; fallback = u.fallback } in
      record {
        monthly = rw (total_spend-add_cost u.today false k u.cost m.rows) (ground arith);
        fallback =
            rw (total_spend-add_cost u.today true k u.cost m.rows) (ground (arith, h.fallback));
      }

  abbrev the_caps : Config
  the_caps = capped cap fallback_cap cooldown

  settle-IsWithin :
      (u : Use) (m : CostMeter) (b : Bool × CostMeter)
      → b.1.rows ≡ m.rows
      → (b.0 ≡ true → total_spend u.today false m.rows < cap)
      → (b.0 ≡ true → u.fallback ≡ true → total_spend u.today true m.rows < fallback_cap)
      → u.cost ≤ most
      → IsWithin cap fallback_cap most u.today m
      → IsWithin cap fallback_cap most u.today (settle u b)
  settle-IsWithin u m (false, m') e below fb c h = IsWithin-rows u.today m m' e h
  settle-IsWithin u m (true, m') e below fb c h =
      IsWithin-record u m' (rw e (below refl)) (λ f. rw e (fb refl f)) c
        (IsWithin-rows u.today m m' e h)

  second_gate-IsWithin :
      (u : Use) (fallback : Bool) (m m' : CostMeter)
      → u.fallback ≡ fallback
      → m'.rows ≡ m.rows
      → total_spend u.today false m.rows < cap
      → u.cost ≤ most
      → IsWithin cap fallback_cap most u.today m
      → IsWithin cap fallback_cap most u.today (settle u (second_gate the_caps u fallback m'))
  second_gate-IsWithin u false m m' f e below c h =
      settle-IsWithin u m (true, m') e (λ g. below) (λ g f'. absurd (cc)) c h
  second_gate-IsWithin u true m m' f e below c h =
      settle-IsWithin u m (allow the_caps u.now u.today true m')
        (allow_rows the_caps u.now u.today true m' ∙ e) (λ g. below)
        (λ g f'.
          let (p, q) = allow_below the_caps u.now u.today true m' g in
          rw (sym e) (ground (arith, q refl)))
        c h

  gated-IsWithin :
      (u : Use) (m : CostMeter) (a : Bool × CostMeter)
      → a.1.rows ≡ m.rows
      → (a.0 ≡ true → total_spend u.today false m.rows < cap)
      → u.cost ≤ most
      → IsWithin cap fallback_cap most u.today m
      → IsWithin cap fallback_cap most u.today (settle u (ask_fallback the_caps u a))
  gated-IsWithin u m (false, m') e below c h = IsWithin-rows u.today m m' e h
  gated-IsWithin u m (true, m') e below c h =
      second_gate-IsWithin u u.fallback m m' refl e (below refl) c h

  spend-IsWithin :
      (u : Use) (m : CostMeter)
      → u.cost ≤ most
      → IsWithin cap fallback_cap most u.today m
      → IsWithin cap fallback_cap most u.today (spend the_caps u m)
  unfolding spend
  spend-IsWithin u m c h =
      gated-IsWithin u m (allow the_caps u.now u.today false m)
        (allow_rows the_caps u.now u.today false m)
        (λ g. ground (arith, (allow_below the_caps u.now u.today false m g).0)) c h

  -- Calls follow one another on days that do not run back, each asked for and recorded as `chat` does it,
  -- none costs more than `most`, and the spend of the window is within the bounds at the start. Then the
  -- spend of the 30 days before the day of the last call is at most the cap and `most`, and the spend of
  -- the calls that the fallback answers at most the fallback's cap and `most`.
  pub spend_bounded :
      (us : List Use) (day : ℕ) (m : CostMeter)
      → Dated most day us
      → IsWithin cap fallback_cap most day m
      → IsWithin cap fallback_cap most (last_day day us) (spend_all the_caps us m)
  spend_bounded [] day m d h = h
  spend_bounded (u ∷ us) day m d h =
      spend_bounded us u.today (spend the_caps u m) d.2
        (spend-IsWithin u m d.1 (IsWithin-later day u.today m d.0 h))

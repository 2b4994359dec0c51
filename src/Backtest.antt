-- ===== src/Backtest.antt =====
-- apps/agent_backtest/backtest: types.py, exits.py, the position store in memory of opener.py and
-- `tick` of mtm/scheduler.py. The price of a ticker at the time of a tick is a function; a quotient is
-- kept as its two parts. The store holds the objects themselves, so a change of one is a change there.
pub mod Ticks
mod Tests
use Prim.Native.Nat.{◌-◌}
use investment_intelligence.Prelude.{
  ℕ, zero, suc, ◌+◌, Bool, true, false, ◌||◌, Option, none, some, List, [], ◌∷◌, ◌++◌, String, leb,
  if◌then◌else◌,
}
use investment_intelligence.Prelude.Keys.{String-keys}
use investment_intelligence.Prelude.Dict.{Dict, lookup, insert}
use investment_intelligence.Prelude.Int.{ℤ, pos, negsuc, pos_part, neg_part}
use investment_intelligence.Prelude.Float.{Float, nan, real, one, float_le, float_eq}
use investment_intelligence.Prelude.Outcome.{Result, ok, err}

pub data Side : Type 0 where
  long short : Side

pub data ExitReason : Type 0 where
  target stop expiry early_close : ExitReason

pub record Ratio : Type 0 where
  pub num : Float
  pub den : Float

pub record Position : Type 0 where
  pub advice_id : String
  pub agent : String
  pub ticker : String
  pub venue : String
  pub side : Side
  pub entry_low : Float
  pub entry_high : Float
  pub target_low : Float
  pub target_high : Float
  pub stop_loss : Float
  pub expires_at : ℕ
  pub opened_at : ℕ
  pub fill_px : Float
  pub is_open : Bool
  pub closed_at : Option ℕ
  pub exit_px : Option Float
  pub exit_reason : Option ExitReason
  pub pnl_usd : Float
  pub pnl_r : Ratio
  pub max_drawdown_pct : Float
  pub marks : List (ℕ × Float)

-- `x or y`: zero counts as missing.
abbrev pub or_price : Option Float → Float → Float
or_price none y = y
or_price (some x) y = if float_eq x (real (pos 0)) then y else x

abbrev past_target : Position → Float → Bool
past_target p px = elim p.side [
  | long ↦ float_le p.target_low px
  | short ↦ float_le px p.target_high
]

abbrev past_stop : Position → Float → Bool
past_stop p px = elim p.side [ long ↦ float_le px p.stop_loss | short ↦ float_le p.stop_loss px ]

-- The near edge of the target band.
abbrev target_edge : Position → Float
target_edge p = elim p.side [ long ↦ p.target_low | short ↦ p.target_high ]

pub check_exit : Position → Float → ℕ → Option ExitReason × Float
check_exit p px asof =
    if p.is_open
    then (if past_target p px
        then (some target, target_edge p)
        else if past_stop p px
        then (some stop, p.stop_loss)
        else if leb p.expires_at asof
        then (some expiry, px)
        else (none, px))
    else (none, or_price p.exit_px p.fill_px)

abbrev pub minus : ℤ → ℤ → ℤ
minus a b =
    let x = pos_part a + neg_part b in
    let y = pos_part b + neg_part a in if leb y x then pos (x - y) else negsuc (y - x - 1)

abbrev pub float_sub : Float → Float → Float
float_sub (real a) (real b) = real (minus a b)
float_sub _ _ = nan

-- `sign * (exit_px - fill_px)`
abbrev pub px_pnl : Position → Float → Float
px_pnl p exit_px = elim p.side [
  | long ↦ float_sub exit_px p.fill_px
  | short ↦ float_sub p.fill_px exit_px
]

abbrev pub float_abs : Float → Float
float_abs nan = nan
float_abs (real a) = real (pos (pos_part a + neg_part a))

abbrev pub or_one : Float → Float
or_one x = if float_eq x (real (pos 0)) then real (pos one) else x

pub realize_pnl : Position → Float → Float × Ratio
realize_pnl p exit_px = (
  px_pnl p exit_px,
  record { num = px_pnl p exit_px; den = or_one (float_abs (float_sub p.fill_px p.stop_loss)) },
)

abbrev pub Store : Type 0
Store = Dict String Position

abbrev pub upsert : Position → Store → Store
upsert p d = insert p.advice_id p d

abbrev pub open_positions : Store → List Position
open_positions [] = []
open_positions ((k, p) ∷ d) = let rest = open_positions d in if p.is_open then p ∷ rest else rest

abbrev pub add_mark : ℕ → Float → Position → Position
add_mark asof px p = record p { marks = p.marks ++ (asof, px) ∷ [] }

abbrev pub close : ℕ → Option ExitReason × Float → Position → Position
close asof (reason, exit_px) p = record p {
  is_open = false;
  closed_at = some asof;
  exit_px = some exit_px;
  exit_reason = reason;
  pnl_usd = (realize_pnl p exit_px).0;
  pnl_r = (realize_pnl p exit_px).1;
}

module _ {W E : Type 0} (on_close : Position → W → Result E (Unit {0}) × W)
    (latest : String → Option Float) (asof : ℕ) where
  -- Whether the position was closed, or what `on_close` raised; the store and the world.
  abbrev pub exit_at : Option ExitReason × Float → Position → Store → W → Result E Bool × Store × W
  exit_at (none, px) p d w = (ok false, upsert p d, w)
  exit_at (some reason, px) p d w =
      let q = close asof (some reason, px) p in
      let (out, w') = on_close q w in (elim out [ ok _ ↦ ok true | err e ↦ err e ], upsert q d, w')

  abbrev pub visit_at : Option Float → Position → Store → W → Result E Bool × Store × W
  visit_at none p d w = (ok false, d, w)
  visit_at (some px) p d w = let p' = add_mark asof px p in exit_at (check_exit p' px asof) p' d w

  abbrev pub visit : Position → Store → W → Result E Bool × Store × W
  visit p d w = visit_at (latest p.ticker) p d w

  abbrev pub add_closed : Bool → Result E ℕ × Store × W → Result E ℕ × Store × W
  add_closed closed (err e, d, w) = (err e, d, w)
  add_closed closed (ok n, d, w) = (ok (if closed then suc n else n), d, w)

  abbrev pub go_on : Result E Bool → Result E ℕ × Store × W → Store × W → Result E ℕ × Store × W
  go_on (err e) rest (d, w) = (err e, d, w)
  go_on (ok closed) rest (d, w) = add_closed closed rest

  -- The loop over the positions that were open at the start.
  pub visit_all : List Position → Store → W → Result E ℕ × Store × W
  visit_all [] d w = (ok 0, d, w)
  visit_all (p ∷ ps) d w =
      let (out, d', w') = visit p d w in go_on out (visit_all ps d' w') (d', w')

  pub tick : Store → W → Result E ℕ × Store × W
  tick d w = visit_all (open_positions d) d w

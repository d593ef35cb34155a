-- ===== src/Risk/Drawdown.antt =====
-- `_max_drawdown` of backend/app/services/risk.py. A drawdown is an exact fraction: what was lost,
-- and the peak that it was lost from.
use assetlog.Prelude.{
  ℕ, suc, ◌-◌, ◌*◌, Bool, true, not, Option, none, some, List, [], ◌∷◌, ltb, if◌then◌else◌,
}
use assetlog.Prelude.Int.{pos, pos_part, leb_ℤ}
use assetlog.Performance.Series.{ValuePoint}

pub record Drawdown : Type 0 where
  pub fall : ℕ
  pub peak : ℕ

-- The number of a positive value.
abbrev pub val : ValuePoint → ℕ
val vp = pos_part vp.value

abbrev pub drawdown : ValuePoint → ValuePoint → Drawdown
drawdown peak vp = record { fall = val peak - val vp; peak = val peak }

-- `drawdown > mdd`, where there is one.
abbrev pub deeper : Drawdown → Option Drawdown → Bool
deeper d none = true
deeper d (some m) = ltb (m.fall * d.peak) (d.fall * m.peak)

-- The variables of the loop.
pub record Scan : Type 0 where
  pub peak : Option ValuePoint
  pub mdd : Option Drawdown
  pub trough_at : Option ℕ
  pub sample_count : ℕ

-- A point below the peak.
abbrev pub below : ValuePoint → ValuePoint → Scan → Scan
below p vp s = record s {
  mdd = if deeper (drawdown p vp) s.mdd then some (drawdown p vp) else s.mdd;
  trough_at = if deeper (drawdown p vp) s.mdd then some vp.timestamp else s.trough_at;
  sample_count = suc s.sample_count;
}

abbrev pub against : Option ValuePoint → ValuePoint → Scan → Scan
against none vp s = record s { peak = some vp; sample_count = suc s.sample_count }
against (some p) vp s =
    if ltb (val p) (val vp)
    then record s { peak = some vp; sample_count = suc s.sample_count }
    else below p vp s

abbrev pub is_sample : ValuePoint → Bool
is_sample vp = not (leb_ℤ vp.value (pos 0))

-- The loop over the series.
unfoldable pub scan : List ValuePoint → Scan → Scan
scan [] s = s
scan (vp ∷ series) s = scan series (if is_sample vp then against s.peak vp s else s)

abbrev pub start : Scan
start = record { peak = none; mdd = none; trough_at = none; sample_count = 0 }

abbrev pub no_loss : Drawdown
no_loss = record { fall = 0; peak = 1 }

abbrev pub or_no_loss : Option Drawdown → Drawdown
or_no_loss none = no_loss
or_no_loss (some d) = d

-- The drawdown and its time; none for fewer than two samples.
abbrev pub outcome : Scan → Option Drawdown × Option ℕ
outcome s = if ltb s.sample_count 2 then (none, none) else (some (or_no_loss s.mdd), s.trough_at)

unfoldable pub max_drawdown : List ValuePoint → Option Drawdown × Option ℕ
unfolding scan
max_drawdown value_series = outcome (scan value_series start)

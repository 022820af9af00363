-- ===== src/Service/Stages/Whole.antt =====
-- A call of which no stage is interrupted.
use segwire.Base.{ℕ, zero, suc, Option, ok, err}
use segwire.Text.{Text}
use segwire.Error.{SegwireResult}
use segwire.Config.{NamespaceConfig}
use segwire.Service.{ServiceState, Backends}
use segwire.Service.Stages.{CallStage, no_call, advance, next_stage}

module _ {K R : Type 0} (on : Backends K R) where
  -- A number of stages with nothing in between.
  unfoldable pub advance_all : ℕ → CallStage → ServiceState K R → CallStage × ServiceState K R
  unfolding advance
  advance_all zero stage svc = (stage, svc)
  advance_all (suc n) stage svc =
      let (stage', svc') = advance on stage svc in advance_all n stage' svc'

  -- What comes behind a deletion.
  abbrev behind_deletion :
      ℕ
      → Option NamespaceConfig
      → SegwireResult (Unit {0}) × ServiceState K R
      → CallStage × ServiceState K R
  behind_deletion n next (ok _, svc) = advance_all n (next_stage next) svc
  behind_deletion n next (err e, svc) = (no_call, svc)

-- ===== src/Config/Enabled.antt =====
-- cmd/prostometrics-agent/config.go: `integrationEnabled`.
use prostometrics_agent.Base.{
  ℕ, ◌<◌, Bool, true, false, Option, none, some, ◌≡◌, ◌≢◌, ◌↔◌, arith, if◌then◌else◌, ◌==◌,
}

-- Off, on, or the error of an integration that is asked for and has nothing configured.
pub data Verdict : Type 0 where
  off on nothing_configured : Verdict

-- The flag is none where it is not given.
unfoldable pub integration_enabled : Option Bool → ℕ → Verdict
integration_enabled (some false) entries = off
integration_enabled none entries = if entries == 0 then off else on
integration_enabled (some true) entries = if entries == 0 then nothing_configured else on

-- An integration is on just when it has entries and is not turned off.
pub integration_enabled_lem :
    (flag : Option Bool) (entries : ℕ)
    → (integration_enabled flag entries ≡ on) ↔ ((flag ≢ some false) × (0 < entries))
unfolding integration_enabled
integration_enabled_lem none entries = ground arith
integration_enabled_lem (some true) entries = ground arith
integration_enabled_lem (some false) entries = ground arith

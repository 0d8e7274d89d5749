-- ===== src/Reliable/Setup.antt =====
-- `relinow_reliable_default_config` and `relinow_reliable_init`.
use relinow.Prelude.{Option, none, some, ◌==◌, if◌then◌else◌}
use relinow.Reliable.Types.{Config, Ctx, zero_ctx}

-- `relinow_reliable_default_config`
abbrev pub default_config : Config
default_config = record { max_retries = 3; initial_rtt_ms = 50; rtt_alpha_q8 = 32 }

-- The configuration that `relinow_reliable_init` keeps: its zero fields are replaced.
unfoldable pub init_config : Option Config → Config
init_config none = default_config
init_config (some cfg) = record {
  max_retries = if cfg.max_retries == 0 then 1 else cfg.max_retries;
  initial_rtt_ms =
      if cfg.initial_rtt_ms == 0 then default_config.initial_rtt_ms else cfg.initial_rtt_ms;
  rtt_alpha_q8 = if cfg.rtt_alpha_q8 == 0 then default_config.rtt_alpha_q8 else cfg.rtt_alpha_q8;
}

-- `relinow_reliable_init`; `none` is the null `cfg`.
unfoldable pub init : Option Config → Ctx
unfolding init_config
init cfg = record zero_ctx {
  cfg = init_config cfg;
  rtt_estimate_ms = (init_config cfg).initial_rtt_ms;
}

-- ===== src/Logger/Silent.antt =====
-- The two readings of `env`.
use eggdfs.Base.{◌≡◌, ◌≢◌, sym, ap, ◌∙◌, true, some, [], done, arith}
use eggdfs.Base.Text.{bytes, text_eq, text_eq_iff, to_lower}
use eggdfs.Conf.{GlobalConfig, Settings, set_mode}
use eggdfs.Logger.{env_debug, env_production, init_logger}

debug-ne-prod : to_lower env_debug ≢ bytes "prod"
unfolding to_lower env_debug bytes
debug-ne-prod e = cc

-- The configuration reads `env` in any case and the log as it is written: an `env` that is "prod" but
-- for its case puts the web framework into release mode, where its output is dropped, and gives the
-- program log no output at all.
pub set_mode_silent :
    (c : GlobalConfig) (s : Settings)
    → s.config ≡ some c
    → to_lower c.env ≡ bytes "prod"
    → c.env ≢ bytes "prod"
    → (set_mode s ≡ done (record s { release = true })) × (init_logger s ≡ done [])
unfolding set_mode init_logger
set_mode_silent c s e lower differs =
    let release : text_eq (to_lower c.env) (bytes "prod") ≡ true = (text_eq_iff _ _).1 lower in
    (
      ground (arith, e, release),
      ground (
        arith,
        e,
        text_eq_iff c.env env_debug,
        text_eq_iff c.env env_production,
        λ (q : c.env ≡ env_debug). debug-ne-prod (sym (ap to_lower q) ∙ lower),
      ),
    )

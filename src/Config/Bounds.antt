-- ===== src/Config/Bounds.antt =====
-- What a configuration accepted by `Load` of internal/config/config.go guarantees.
use notifier.Base.{◌≡◌, ◌↔◌, refl, subst, str_eq}
use notifier.Domain.Errors.{Result, ok, ◌>>=◌}
use notifier.Config.{
  role_all, role_of, Config, defaults, Readers, Lookup, at_least_one, parse_int, parse_bool,
  parse_duration, parse_role, text_or, check_bounds, read_settings, load,
}
use notifier.Config.Settings.{
  bind_ok, IsPositive, Reads, ReadsRole, setting_iff, role_iff, at_least_one_iff,
}

module _ (rd : Readers) (lookup : Lookup) where
  -- What each field of an accepted configuration is.
  pub record Loads (cfg : Config) : Type 0 where
    pub role : ReadsRole rd lookup defaults.role cfg.role
    pub http_port : Reads rd lookup rd.atoi "HTTP_PORT" defaults.http_port cfg.http_port
    pub worker_prefetch :
        Reads rd lookup rd.atoi "WORKER_PREFETCH" defaults.worker_prefetch cfg.worker_prefetch
    pub shutdown_timeout :
        Reads rd lookup rd.parse_duration "SHUTDOWN_TIMEOUT" defaults.shutdown_timeout
          cfg.shutdown_timeout
    pub provider_timeout :
        Reads rd lookup rd.parse_duration "PROVIDER_TIMEOUT" defaults.provider_timeout
          cfg.provider_timeout
    pub max_batch_size :
        Reads rd lookup rd.atoi "MAX_BATCH_SIZE" defaults.max_batch_size cfg.max_batch_size
    pub max_delivery_attempts :
        Reads rd lookup rd.atoi "MAX_DELIVERY_ATTEMPTS" defaults.max_delivery_attempts
          cfg.max_delivery_attempts
    pub dashboard_enabled :
        Reads rd lookup rd.parse_bool "DASHBOARD_ENABLED" defaults.dashboard_enabled
          cfg.dashboard_enabled
    pub rate_limit_per_channel :
        Reads rd lookup rd.atoi "RATE_LIMIT_PER_CHANNEL" defaults.rate_limit_per_channel
          cfg.rate_limit_per_channel
    pub worker_concurrency :
        Reads rd lookup rd.atoi "WORKER_CONCURRENCY" defaults.worker_concurrency
          cfg.worker_concurrency
    pub scheduler_poll_interval :
        Reads rd lookup rd.parse_duration "SCHEDULER_POLL_INTERVAL" defaults.scheduler_poll_interval
          cfg.scheduler_poll_interval
    pub stale_pending_after :
        Reads rd lookup rd.parse_duration "STALE_PENDING_AFTER" defaults.stale_pending_after
          cfg.stale_pending_after
    pub log_level : text_or rd lookup "LOG_LEVEL" defaults.log_level ≡ cfg.log_level
    pub database_url : text_or rd lookup "DATABASE_URL" defaults.database_url ≡ cfg.database_url
    pub rabbit_url : text_or rd lookup "RABBITMQ_URL" defaults.rabbit_url ≡ cfg.rabbit_url
    pub provider_url : lookup "PROVIDER_URL" ≡ cfg.provider_url
    pub worker_metrics_url : lookup "WORKER_METRICS_URL" ≡ cfg.worker_metrics_url

  -- The three numbers that are checked.
  pub record InBounds (cfg : Config) : Type 0 where
    pub rate : IsPositive cfg.rate_limit_per_channel
    pub concurrency : IsPositive cfg.worker_concurrency
    pub batch : IsPositive cfg.max_batch_size

  check_bounds-ok :
      (cfg out : Config)
      → check_bounds rd lookup cfg ≡ ok out
      → (cfg ≡ out)
        × IsPositive cfg.rate_limit_per_channel
        × IsPositive cfg.worker_concurrency
        × IsPositive cfg.max_batch_size
  unfolding check_bounds
  check_bounds-ok cfg out =
      bind_ok (at_least_one rd lookup "RATE_LIMIT_PER_CHANNEL" cfg.rate_limit_per_channel) _ out
        (λ a r.
          bind_ok (at_least_one rd lookup "WORKER_CONCURRENCY" cfg.worker_concurrency) _ out (λ b c.
            bind_ok (at_least_one rd lookup "MAX_BATCH_SIZE" cfg.max_batch_size) _ out (λ d m h. (
              cc,
              (at_least_one_iff rd lookup _ _).0 r,
              (at_least_one_iff rd lookup _ _).0 c,
              (at_least_one_iff rd lookup _ _).0 m,
            ))))

  ok_inj : (a b : Config) → ok a ≡ ok b → a ≡ b
  ok_inj a b h = cc

  read_settings-Loads : (cfg : Config) → read_settings rd lookup defaults ≡ ok cfg → Loads cfg
  unfolding read_settings parse_int parse_bool parse_duration parse_role
  read_settings-Loads cfg h =
      bind_ok _ _ cfg
        (λ role e0. bind_ok _ _ cfg (λ v1 e1. bind_ok _ _ cfg (λ v2 e2. bind_ok _ _ cfg (λ v3 e3.
          bind_ok _ _ cfg (λ v4 e4. bind_ok _ _ cfg (λ v5 e5. bind_ok _ _ cfg (λ v6 e6.
            bind_ok _ _ cfg (λ v7 e7. bind_ok _ _ cfg (λ v8 e8. bind_ok _ _ cfg (λ v9 e9.
              bind_ok _ _ cfg (λ v10 e10. bind_ok _ _ cfg (λ v11 e11. λ same.
                subst Loads (ok_inj _ cfg same) (record {
                  role =
                      (role_iff rd lookup role_all role (str_eq (lookup "ROLE") "")
                          (role_of (lookup "ROLE"))).0
                        e0;
                  http_port =
                      (setting_iff rd lookup rd.atoi "HTTP_PORT" defaults.http_port v1).0 e1;
                  worker_prefetch =
                      (setting_iff rd lookup rd.atoi "WORKER_PREFETCH" defaults.worker_prefetch
                          v2).0
                        e2;
                  shutdown_timeout =
                      (setting_iff rd lookup rd.parse_duration "SHUTDOWN_TIMEOUT"
                          defaults.shutdown_timeout v3).0
                        e3;
                  provider_timeout =
                      (setting_iff rd lookup rd.parse_duration "PROVIDER_TIMEOUT"
                          defaults.provider_timeout v4).0
                        e4;
                  max_batch_size =
                      (setting_iff rd lookup rd.atoi "MAX_BATCH_SIZE" defaults.max_batch_size v5).0
                        e5;
                  max_delivery_attempts =
                      (setting_iff rd lookup rd.atoi "MAX_DELIVERY_ATTEMPTS"
                          defaults.max_delivery_attempts v6).0
                        e6;
                  dashboard_enabled =
                      (setting_iff rd lookup rd.parse_bool "DASHBOARD_ENABLED"
                          defaults.dashboard_enabled v7).0
                        e7;
                  rate_limit_per_channel =
                      (setting_iff rd lookup rd.atoi "RATE_LIMIT_PER_CHANNEL"
                          defaults.rate_limit_per_channel v8).0
                        e8;
                  worker_concurrency =
                      (setting_iff rd lookup rd.atoi "WORKER_CONCURRENCY"
                          defaults.worker_concurrency v9).0
                        e9;
                  scheduler_poll_interval =
                      (setting_iff rd lookup rd.parse_duration "SCHEDULER_POLL_INTERVAL"
                          defaults.scheduler_poll_interval v10).0
                        e10;
                  stale_pending_after =
                      (setting_iff rd lookup rd.parse_duration "STALE_PENDING_AFTER"
                          defaults.stale_pending_after v11).0
                        e11;
                  log_level = refl;
                  database_url = refl;
                  rabbit_url = refl;
                  provider_url = refl;
                  worker_metrics_url = refl;
                })))))))))))))
        h

  bind_run :
      {A B : Type 0} (m : Result A) (f : A → Result B) (a : A) (b : B)
      → m ≡ ok a
      → f a ≡ ok b
      → (m >>= f) ≡ ok b
  bind_run m f a b e h = rw e h

  Loads-read_settings : (cfg : Config) → Loads cfg → read_settings rd lookup defaults ≡ ok cfg
  unfolding read_settings parse_int parse_bool parse_duration parse_role
  Loads-read_settings cfg l =
      bind_run _ _ cfg.role cfg
        ((role_iff rd lookup role_all cfg.role (str_eq (lookup "ROLE") "")
            (role_of (lookup "ROLE"))).1
          l.role)
        (bind_run _ _ cfg.http_port cfg
          ((setting_iff rd lookup rd.atoi "HTTP_PORT" defaults.http_port cfg.http_port).1
            l.http_port)
          (bind_run _ _ cfg.worker_prefetch cfg
            ((setting_iff rd lookup rd.atoi "WORKER_PREFETCH" defaults.worker_prefetch
                cfg.worker_prefetch).1
              l.worker_prefetch)
            (bind_run _ _ cfg.shutdown_timeout cfg
              ((setting_iff rd lookup rd.parse_duration "SHUTDOWN_TIMEOUT" defaults.shutdown_timeout
                  cfg.shutdown_timeout).1
                l.shutdown_timeout)
              (bind_run _ _ cfg.provider_timeout cfg
                ((setting_iff rd lookup rd.parse_duration "PROVIDER_TIMEOUT"
                    defaults.provider_timeout cfg.provider_timeout).1
                  l.provider_timeout)
                (bind_run _ _ cfg.max_batch_size cfg
                  ((setting_iff rd lookup rd.atoi "MAX_BATCH_SIZE" defaults.max_batch_size
                      cfg.max_batch_size).1
                    l.max_batch_size)
                  (bind_run _ _ cfg.max_delivery_attempts cfg
                    ((setting_iff rd lookup rd.atoi "MAX_DELIVERY_ATTEMPTS"
                        defaults.max_delivery_attempts cfg.max_delivery_attempts).1
                      l.max_delivery_attempts)
                    (bind_run _ _ cfg.dashboard_enabled cfg
                      ((setting_iff rd lookup rd.parse_bool "DASHBOARD_ENABLED"
                          defaults.dashboard_enabled cfg.dashboard_enabled).1
                        l.dashboard_enabled)
                      (bind_run _ _ cfg.rate_limit_per_channel cfg
                        ((setting_iff rd lookup rd.atoi "RATE_LIMIT_PER_CHANNEL"
                            defaults.rate_limit_per_channel cfg.rate_limit_per_channel).1
                          l.rate_limit_per_channel)
                        (bind_run _ _ cfg.worker_concurrency cfg
                          ((setting_iff rd lookup rd.atoi "WORKER_CONCURRENCY"
                              defaults.worker_concurrency cfg.worker_concurrency).1
                            l.worker_concurrency)
                          (bind_run _ _ cfg.scheduler_poll_interval cfg
                            ((setting_iff rd lookup rd.parse_duration "SCHEDULER_POLL_INTERVAL"
                                defaults.scheduler_poll_interval cfg.scheduler_poll_interval).1
                              l.scheduler_poll_interval)
                            (bind_run _ _ cfg.stale_pending_after cfg
                              ((setting_iff rd lookup rd.parse_duration "STALE_PENDING_AFTER"
                                  defaults.stale_pending_after cfg.stale_pending_after).1
                                l.stale_pending_after)
                              (rw
                                (
                                  l.log_level, l.database_url, l.rabbit_url, l.provider_url,
                                  l.worker_metrics_url,
                                )
                                refl))))))))))))

  InBounds-check_bounds : (cfg : Config) → InBounds cfg → check_bounds rd lookup cfg ≡ ok cfg
  unfolding check_bounds
  InBounds-check_bounds cfg b = bind_run _ _ tt cfg ((at_least_one_iff rd lookup _ _).1 b.rate) (
      bind_run _ _ tt cfg ((at_least_one_iff rd lookup _ _).1 b.concurrency)
        (bind_run _ _ tt cfg ((at_least_one_iff rd lookup _ _).1 b.batch) refl))

  -- The environment is accepted with a configuration exactly if the configuration has, for each key, the
  -- default where the key is not set and otherwise what the key's text reads as, its role is a known one,
  -- and its rate limit, its concurrency and its batch size are at least 1.
  pub load_iff : (cfg : Config) → (load rd lookup ≡ ok cfg) ↔ (Loads cfg × InBounds cfg)
  unfolding load
  load_iff cfg = (
    bind_ok (read_settings rd lookup defaults) (check_bounds rd lookup) cfg
        (λ read settings checked.
          let (same, rate, concurrency, batch) = check_bounds-ok read cfg checked in
          subst (λ c. Loads c × InBounds c) same
            (
              read_settings-Loads read settings,
              record { rate = rate; concurrency = concurrency; batch = batch },
            )),
    λ (l, b).
        bind_run (read_settings rd lookup defaults) (check_bounds rd lookup) cfg cfg
          (Loads-read_settings cfg l) (InBounds-check_bounds cfg b),
  )

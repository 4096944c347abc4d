-- ===== src/Database/Connection/Bounds.antt =====
-- The settings of the pool that a start from the environment gives are in the range of the driver.
use graphpost.Prelude.{
  zero, suc, ◌≤◌, ◌<◌, String, Bool, true, false, Option, none, some, if◌then◌else◌, ◌≡◌, refl,
  arith, ◌==◌,
}
use graphpost.Prelude.Int.{ℤ, pos, negsuc, ltb_ℤ}
use graphpost.Configuration.{DatabaseConfig}
use graphpost.Configuration.Defaults.{default_database, minutes, seconds}
use graphpost.Configuration.Environment.{
  Parsers, Environment, or_old, load_pool, load_with, load_from_env,
}
use graphpost.Configuration.Start.{load_database-default}
use graphpost.Database.Connection.{PoolSettings, to_int32, positive_or, pool_settings}

-- A number of the type int32.
abbrev pub IsInt32 : ℤ → Type 0
IsInt32 (pos n) = n ≤ 2147483647
IsInt32 (negsuc n) = n ≤ 2147483647

-- A positive one.
abbrev pub IsPositive32 : ℤ → Type 0
IsPositive32 (pos n) = (0 < n) × (n ≤ 2147483647)
IsPositive32 (negsuc n) = ⊥

abbrev pub IsPositive : ℤ → Type 0
IsPositive (pos n) = 0 < n
IsPositive (negsuc n) = ⊥

-- What the pool needs: sizes of the type int32 and times, all positive.
pub record IsUsable (s : PoolSettings) : Type 0 where
  pub min_conns : IsPositive32 s.min_conns
  pub max_conns : IsPositive32 s.max_conns
  pub max_conn_lifetime : IsPositive s.max_conn_lifetime
  pub max_conn_idle_time : IsPositive s.max_conn_idle_time
  pub health_check_period : IsPositive s.health_check_period
  pub connect_timeout : IsPositive s.connect_timeout

-- Spec: a setting that is given and positive, and otherwise a default.
abbrev pub chosen : Option ℤ → ℤ → ℤ
chosen (some (pos (suc n))) default = pos (suc n)
chosen _ default = default

-- What a variable that is set gives.
abbrev pub read : (String → Option ℤ) → String → Option ℤ
read parse v = if v == "" then none else parse v

-- The settings are those of the environment, and otherwise the defaults.
pub record Follows {F : Type 0} (parsers : Parsers F) (env : Environment) (s : PoolSettings)
    : Type 0 where
  pub min_conns :
      s.min_conns ≡ chosen (read parsers.int32_of (env "GRAPHPOST_POOL_MIN_CONNS")) (pos 5)
  pub max_conns :
      s.max_conns ≡ chosen (read parsers.int32_of (env "GRAPHPOST_POOL_MAX_CONNS")) (pos 50)
  pub max_conn_lifetime :
      s.max_conn_lifetime
      ≡ chosen (read parsers.duration_of (env "GRAPHPOST_POOL_MAX_CONN_LIFETIME")) (minutes 60)
  pub max_conn_idle_time :
      s.max_conn_idle_time
      ≡ chosen (read parsers.duration_of (env "GRAPHPOST_POOL_MAX_CONN_IDLE_TIME")) (minutes 30)
  pub health_check_period :
      s.health_check_period
      ≡ chosen (read parsers.duration_of (env "GRAPHPOST_POOL_HEALTH_CHECK_PERIOD")) (minutes 1)
  pub connect_timeout :
      s.connect_timeout
      ≡ chosen (read parsers.duration_of (env "GRAPHPOST_POOL_CONNECT_TIMEOUT")) (seconds 10)

positive_or_same : (d : ℤ) → positive_or d d ≡ d
unfolding positive_or
positive_or_same d = ground arith

positive_or-chosen :
    (b : Bool) (o : Option ℤ) (d : ℤ)
    → positive_or (if b then d else or_old o d) d ≡ chosen (if b then none else o) d
unfolding positive_or
positive_or-chosen true o d = positive_or_same d
positive_or-chosen false none d = positive_or_same d
positive_or-chosen false (some (pos zero)) d = refl
positive_or-chosen false (some (pos (suc n))) d = ground arith
positive_or-chosen false (some (negsuc n)) d = ground arith

-- A conditional has what both of its branches have.
either : (P : ℤ → Type 0) (b : Bool) (v w : ℤ) → (b ≡ true → P v) → P w → P (if b then v else w)
either P true v w h k = h refl
either P false v w h k = k

positive_or-IsPositive32 : (v w : ℤ) → IsInt32 v → IsPositive32 w → IsPositive32 (positive_or v w)
unfolding positive_or
positive_or-IsPositive32 (pos n) w h k =
    either IsPositive32 (ltb_ℤ (pos 0) (pos n)) (pos n) w (λ e. (ground (arith, e), h)) k
positive_or-IsPositive32 (negsuc n) w h k =
    either IsPositive32 (ltb_ℤ (pos 0) (negsuc n)) (negsuc n) w (λ e. ground (arith, e)) k

positive_or-IsPositive : (v w : ℤ) → IsPositive w → IsPositive (positive_or v w)
unfolding positive_or
positive_or-IsPositive (pos n) w k =
    either IsPositive (ltb_ℤ (pos 0) (pos n)) (pos n) w (λ e. ground (arith, e)) k
positive_or-IsPositive (negsuc n) w k =
    either IsPositive (ltb_ℤ (pos 0) (negsuc n)) (negsuc n) w (λ e. ground (arith, e)) k

or_old-IsInt32 :
    (o : Option ℤ) (old : ℤ)
    → ((n : ℤ) → o ≡ some n → IsInt32 n)
    → IsInt32 old
    → IsInt32 (or_old o old)
or_old-IsInt32 none old fits h = h
or_old-IsInt32 (some n) old fits h = fits n refl

parsed_or-IsInt32 :
    (b : Bool) (parse : String → Option ℤ) (v : String) (old : ℤ)
    → ((s : String) (n : ℤ) → parse s ≡ some n → IsInt32 n)
    → IsInt32 old
    → IsInt32 (if b then old else or_old (parse v) old)
parsed_or-IsInt32 true parse v old fits h = h
parsed_or-IsInt32 false parse v old fits h = or_old-IsInt32 (parse v) old (fits v) h

-- A database section whose legacy fields are those of the defaults.
record HasDefaults (d : DatabaseConfig) : Type 0 where
  idle : d.max_idle_conns ≡ pos 5
  opened : d.max_open_conns ≡ pos 50
  lifetime : d.conn_max_lifetime ≡ default_database.conn_max_lifetime
  least : IsInt32 d.pool.min_conns
  most : IsInt32 d.pool.max_conns

pool_settings-IsUsable : (d : DatabaseConfig) → HasDefaults d → IsUsable (pool_settings d)
unfolding pool_settings to_int32
pool_settings-IsUsable d h = record {
  min_conns = positive_or-IsPositive32 d.pool.min_conns _ h.least (rw h.idle (omega arith));
  max_conns = positive_or-IsPositive32 d.pool.max_conns _ h.most (rw h.opened (omega arith));
  max_conn_lifetime =
      positive_or-IsPositive d.pool.max_conn_lifetime _
        (positive_or-IsPositive d.conn_max_lifetime _ (omega arith));
  max_conn_idle_time = positive_or-IsPositive d.pool.max_conn_idle_time _ (omega arith);
  health_check_period = positive_or-IsPositive d.pool.health_check_period _ (omega arith);
  connect_timeout = positive_or-IsPositive d.pool.connect_timeout _ (omega arith);
}

module _ {F : Type 0} (parsers : Parsers F) (env : Environment) where
  load_from_env-HasDefaults :
      ((s : String) (n : ℤ) → parsers.int32_of s ≡ some n → IsInt32 n)
      → HasDefaults (load_from_env parsers env).database
  unfolding load_from_env load_with load_pool
  load_from_env-HasDefaults fits = rw (load_database-default parsers env) (record {
    idle = refl;
    opened = refl;
    lifetime = refl;
    least =
        parsed_or-IsInt32 (env "GRAPHPOST_POOL_MIN_CONNS" == "") parsers.int32_of
          (env "GRAPHPOST_POOL_MIN_CONNS") default_database.pool.min_conns fits (omega arith);
    most =
        parsed_or-IsInt32 (env "GRAPHPOST_POOL_MAX_CONNS" == "") parsers.int32_of
          (env "GRAPHPOST_POOL_MAX_CONNS") default_database.pool.max_conns fits (omega arith);
  })

  load_from_env-Follows : Follows parsers env (pool_settings (load_from_env parsers env).database)
  unfolding load_from_env load_with load_pool pool_settings to_int32
  load_from_env-Follows =
      let set =
        λ (parse : String → Option ℤ) (v : String). positive_or-chosen (v == "") (parse v) in
      rw (load_database-default parsers env) (record {
        min_conns = set parsers.int32_of (env "GRAPHPOST_POOL_MIN_CONNS") (pos 5);
        max_conns = set parsers.int32_of (env "GRAPHPOST_POOL_MAX_CONNS") (pos 50);
        max_conn_lifetime =
            set parsers.duration_of (env "GRAPHPOST_POOL_MAX_CONN_LIFETIME") (minutes 60);
        max_conn_idle_time =
            set parsers.duration_of (env "GRAPHPOST_POOL_MAX_CONN_IDLE_TIME") (minutes 30);
        health_check_period =
            set parsers.duration_of (env "GRAPHPOST_POOL_HEALTH_CHECK_PERIOD") (minutes 1);
        connect_timeout =
            set parsers.duration_of (env "GRAPHPOST_POOL_CONNECT_TIMEOUT") (seconds 10);
      })

  -- Whatever the environment says, the pool of connections gets each size and time that is set to a
  -- positive number that can be read, and for one that is missing, negative, zero or unreadable the
  -- default: 5 and 50 connections, 60, 30 and 1 minutes, and 10 seconds. All are positive, and the sizes
  -- fit an int32, if the parser of an int32 gives only numbers of that type.
  pub load_from_env-IsUsable :
      ((s : String) (n : ℤ) → parsers.int32_of s ≡ some n → IsInt32 n)
      → let s = pool_settings (load_from_env parsers env).database in
        IsUsable s × Follows parsers env s
  load_from_env-IsUsable fits = (
    pool_settings-IsUsable (load_from_env parsers env).database (load_from_env-HasDefaults fits),
    load_from_env-Follows,
  )

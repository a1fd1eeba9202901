-- ===== src/Mpesa/Cache/Laws.antt =====
-- How old what the caches answer can be (services/cache.go, services/mpesa.go).
use zyranet_api.Base.{
  ℕ, ◌+◌, ◌*◌, ◌≤◌, ◌<◌, ◌≡◌, refl, sym, subst, Bool, Option, none, some, List, [], ◌∷◌, ◌==◌, leb,
  length, All, All_find_first, Bool-cases, Option-cases, inl, inr, arith, find_first_holds, ltb→lt,
  ==→eq, some-injective, ◌∷◌,
}
use zyranet_api.Text.{Text}
use zyranet_api.Mpesa.Creds.{
  Creds, MpesaConfig, CredsDb, CredsStmt, find_settings, query_settings, resolve_with,
}
use zyranet_api.Mpesa.Cache.{
  Cache, invalidate, CachedCreds, CachedSettings, cache_ttl, cache_max_entries, load_settings,
  resolve_cached, put_creds, store_creds, cached_creds_for, cached_settings, empty_cache, unexpired,
  unexpired_creds,
}

-- A read or a write of the configuration, some time after the one before.
pub data CacheCall : Type 0 where
  read_creds : (zone_id : ℕ) → CacheCall
  save_config : CacheCall

-- What the database holds at each moment, and which queries fail then.
module _ (cfg : MpesaConfig) (db_at : ℕ → CredsDb) (fails_at : ℕ → CredsStmt → Bool) where
  -- Settings that were read at a moment no later than `now`, and that are kept from it for
  -- `cache_ttl`, until `until`.
  pub record ReadSettings (now until : ℕ) (m : List (Text × Text)) : Type 0 where
    pub moment : ℕ
    pub past : moment ≤ now
    pub lasts : until ≡ moment + cache_ttl
    pub read : m ≡ query_settings (fails_at moment find_settings) (db_at moment).settings

  -- Credentials that were looked up at such a moment, with settings that were still kept then.
  pub record LookedUp (now until zone_id : ℕ) (c : Creds) : Type 0 where
    pub moment : ℕ
    pub past : moment ≤ now
    pub lasts : until ≡ moment + cache_ttl
    pub settings : List (Text × Text)
    pub settings_until : ℕ
    pub settings_kept : moment < settings_until
    pub settings_read : ReadSettings moment settings_until settings
    pub looked_up : c ≡ resolve_with cfg (fails_at moment) settings (db_at moment) zone_id

  -- Every entry holds what was read, until what its expiry says.
  pub record IsFresh (now : ℕ) (cache : Cache) : Type 0 where
    pub of_settings :
        (e : CachedSettings) → cache.settings ≡ some e → ReadSettings now e.expires e.settings
    pub of_creds : All (λ e. LookedUp now e.expires e.zone_id e.creds) cache.creds

  empty_cache-IsFresh : (now : ℕ) → IsFresh now empty_cache
  empty_cache-IsFresh now = record { of_settings = λ e h. absurd (ground arith); of_creds = tt }

  ReadSettings-later :
      (now later until : ℕ) (m : List (Text × Text))
      → now ≤ later
      → ReadSettings now until m
      → ReadSettings later until m
  ReadSettings-later now later until m h r = record {
    moment = r.moment;
    past = omega (arith, h, r.past);
    lasts = r.lasts;
    read = r.read;
  }

  LookedUp-later :
      (now later until zone_id : ℕ) (c : Creds)
      → now ≤ later
      → LookedUp now until zone_id c
      → LookedUp later until zone_id c
  LookedUp-later now later until zone_id c h l = record {
    moment = l.moment;
    past = omega (arith, h, l.past);
    lasts = l.lasts;
    settings = l.settings;
    settings_until = l.settings_until;
    settings_kept = l.settings_kept;
    settings_read = l.settings_read;
    looked_up = l.looked_up;
  }

  All-later :
      (now later : ℕ) (es : List CachedCreds)
      → now ≤ later
      → All (λ e. LookedUp now e.expires e.zone_id e.creds) es
      → All (λ e. LookedUp later e.expires e.zone_id e.creds) es
  All-later now later [] h all = tt
  All-later now later (e ∷ es) h all =
      (LookedUp-later now later e.expires e.zone_id e.creds h all.0, All-later now later es h all.1)

  IsFresh-later :
      (now later : ℕ) (cache : Cache) → now ≤ later → IsFresh now cache → IsFresh later cache
  IsFresh-later now later cache h fresh = record {
    of_settings =
        λ e found. ReadSettings-later now later e.expires e.settings h (fresh.of_settings e found);
    of_creds = All-later now later cache.creds h fresh.of_creds;
  }

  put_creds-All :
      (now : ℕ) (entry : CachedCreds) (es : List CachedCreds)
      → LookedUp now entry.expires entry.zone_id entry.creds
      → All (λ e. LookedUp now e.expires e.zone_id e.creds) es
      → All (λ e. LookedUp now e.expires e.zone_id e.creds) (put_creds entry es)
  put_creds-All now entry [] l all = (l, tt)
  put_creds-All now entry (e ∷ es) l all = elim (Bool-cases (e.zone_id == entry.zone_id)) [
    | inl same ↦ rw same (l, all.1)
    | inr other ↦ rw other (all.0, put_creds-All now entry es l all.1)
  ]

  -- What loading the settings gives: settings that are still kept, and caches that stay fresh.
  record Loaded (now : ℕ) (cache : Cache) (r : List (Text × Text) × Cache) : Type 0 where
    until : ℕ
    kept : now < until
    read : ReadSettings now until r.0
    fresh : IsFresh now r.1

  unexpired_hit :
      (now : ℕ) (o : Option CachedSettings) (m : List (Text × Text))
      → unexpired now o ≡ some m
      → (e : CachedSettings) × (o ≡ some e) × (now < e.expires) × (e.settings ≡ m)
  unexpired_hit now none m h = absurd (ground arith)
  unexpired_hit now (some e) m h = (e, refl, ground (arith, ltb→lt now e.expires), ground arith)

  unexpired_creds_hit :
      (now : ℕ) (o : Option CachedCreds) (c : Creds)
      → unexpired_creds now o ≡ some c
      → (e : CachedCreds) × (o ≡ some e) × (now < e.expires) × (e.creds ≡ c)
  unexpired_creds_hit now none m h = absurd (ground arith)
  unexpired_creds_hit now (some e) m h =
      (e, refl, ground (arith, ltb→lt now e.expires), ground arith)

  load_settings-Loaded :
      (now : ℕ) (cache : Cache)
      → IsFresh now cache
      → Loaded now cache (load_settings (fails_at now) (db_at now) now cache)
  unfolding load_settings
  load_settings-Loaded now cache fresh = elim (Option-cases (cached_settings now cache)) [
    | inl gone ↦ subst (Loaded now cache) (sym (rw (load_settings, gone) refl)) (record {
      until = now + cache_ttl;
      kept = omega arith;
      read = record { moment = now; past = omega arith; lasts = refl; read = refl };
      fresh = record {
        of_settings = λ e h.
            subst (λ e. ReadSettings now e.expires e.settings) (some-injective _ e h)
              (record { moment = now; past = omega arith; lasts = refl; read = refl });
        of_creds = fresh.of_creds;
      };
    })
    | inr (m, hit) ↦
        let (e, here, kept, same) = unexpired_hit now cache.settings m hit in
        subst (Loaded now cache) (sym (rw (load_settings, hit) refl)) (record {
          until = e.expires;
          kept = kept;
          read = subst (ReadSettings now e.expires) same (fresh.of_settings e here);
          fresh = fresh;
        })
  ]

  -- What a lookup gives: credentials that are still kept, and caches that stay fresh.
  pub record Answered (now zone_id : ℕ) (r : Creds × Cache) : Type 0 where
    pub until : ℕ
    pub kept : now < until
    pub looked_up : LookedUp now until zone_id r.0
    pub fresh : IsFresh now r.1

  store_creds-IsFresh :
      (now zone_id : ℕ) (c : Creds) (cache : Cache)
      → LookedUp now (now + cache_ttl) zone_id c
      → IsFresh now cache
      → IsFresh now (store_creds now zone_id c cache)
  store_creds-IsFresh now zone_id c cache l fresh = record {
    of_settings = fresh.of_settings;
    of_creds = elim (Bool-cases (leb cache_max_entries (length cache.creds))) [
      | inl full ↦ rw full (l, tt)
      | inr room ↦ rw room (
          put_creds-All now (record { zone_id = zone_id; creds = c; expires = now + cache_ttl })
            cache.creds l fresh.of_creds)
    ];
  }

  pub resolve_cached-Answered :
      (now zone_id : ℕ) (cache : Cache)
      → IsFresh now cache
      → Answered now zone_id (resolve_cached cfg (fails_at now) (db_at now) now zone_id cache)
  unfolding resolve_cached
  resolve_cached-Answered now zone_id cache fresh =
      elim (Option-cases (cached_creds_for now zone_id cache)) [
        | inl gone ↦
            let loaded = load_settings-Loaded now cache fresh in
            let l : LookedUp now (now + cache_ttl) zone_id _ = record {
              moment = now;
              past = omega arith;
              lasts = refl;
              settings = _;
              settings_until = loaded.until;
              settings_kept = loaded.kept;
              settings_read = loaded.read;
              looked_up = refl;
            } in
            subst (Answered now zone_id) (sym (rw (resolve_cached, gone) refl)) (record {
              until = now + cache_ttl;
              kept = omega arith;
              looked_up = l;
              fresh = store_creds-IsFresh now zone_id _ _ l loaded.fresh;
            })
        | inr (c, hit) ↦
            let (e, here, kept, same) = unexpired_creds_hit now _ c hit in
            let l =
              All_find_first (λ e. LookedUp now e.expires e.zone_id e.creds) _ cache.creds
                fresh.of_creds here in
            subst (Answered now zone_id) (sym (rw (resolve_cached, hit) refl)) (record {
              until = e.expires;
              kept = kept;
              looked_up = subst (LookedUp now e.expires zone_id) same (
                  subst (λ z. LookedUp now e.expires z e.creds)
                    (==→eq e.zone_id zone_id (find_first_holds _ cache.creds e here)) l);
              fresh = fresh;
            })
      ]

  unfoldable pub cache_step : ℕ → CacheCall → Cache → Cache
  cache_step now (read_creds zone_id) cache =
      (resolve_cached cfg (fails_at now) (db_at now) now zone_id cache).1
  cache_step now save_config cache = invalidate cache

  unfoldable pub cache_steps : ℕ → List (ℕ × CacheCall) → Cache → ℕ × Cache
  cache_steps now [] cache = (now, cache)
  cache_steps now ((delay, call) ∷ calls) cache =
      cache_steps (now + delay) calls (cache_step (now + delay) call cache)

  cache_steps-IsFresh :
      (now : ℕ) (calls : List (ℕ × CacheCall)) (cache : Cache)
      → IsFresh now cache
      → IsFresh (cache_steps now calls cache).0 (cache_steps now calls cache).1
  unfolding cache_step cache_steps invalidate
  cache_steps-IsFresh now [] cache fresh = fresh
  cache_steps-IsFresh now ((delay, read_creds zone_id) ∷ calls) cache fresh =
      cache_steps-IsFresh (now + delay) calls _
        (resolve_cached-Answered (now + delay) zone_id cache
          (IsFresh-later now (now + delay) cache (omega arith) fresh)).fresh
  cache_steps-IsFresh now ((delay, save_config) ∷ calls) cache fresh =
      cache_steps-IsFresh (now + delay) calls empty_cache (empty_cache-IsFresh (now + delay))

  -- Credentials that are answered: what a lookup gave at a moment less than 30 s ago, from settings
  -- that were read less than 30 s before that, so less than 60 s ago.
  pub record IsRecent (now zone_id : ℕ) (c : Creds) : Type 0 where
    pub looked_up_at : ℕ
    pub settings_at : ℕ
    pub in_order : settings_at ≤ looked_up_at
    pub past : looked_up_at ≤ now
    pub lookup_kept : now < looked_up_at + cache_ttl
    pub settings_kept : looked_up_at < settings_at + cache_ttl
    pub within : now < settings_at + 2 * cache_ttl
    pub answer :
        c
        ≡ resolve_with cfg
            (fails_at looked_up_at)
            (query_settings (fails_at settings_at find_settings) (db_at settings_at).settings)
            (db_at looked_up_at)
            zone_id

  LookedUp-IsRecent :
      (now until zone_id : ℕ) (c : Creds)
      → now < until
      → LookedUp now until zone_id c
      → IsRecent now zone_id c
  LookedUp-IsRecent now until zone_id c kept l = record {
    looked_up_at = l.moment;
    settings_at = l.settings_read.moment;
    in_order = l.settings_read.past;
    past = l.past;
    lookup_kept = omega (arith, kept, l.lasts);
    settings_kept = omega (arith, l.settings_kept, l.settings_read.lasts);
    within = omega (arith, kept, l.lasts, l.settings_kept, l.settings_read.lasts);
    answer = rw (← l.settings_read.read) l.looked_up;
  }

  -- However the database changes and whichever queries fail, and after any reads and saves of this
  -- process from its start: the credentials that a read answers were looked up in the database less
  -- than 30 s ago, with settings that were read less than 30 s before that.
  pub resolve_cached-IsRecent :
      (start : ℕ) (calls : List (ℕ × CacheCall)) (zone_id : ℕ)
      → let after = cache_steps start calls empty_cache in
        IsRecent after.0 zone_id
          (resolve_cached cfg (fails_at after.0) (db_at after.0) after.0 zone_id after.1).0
  resolve_cached-IsRecent start calls zone_id =
      let after = cache_steps start calls empty_cache in
      let fresh = cache_steps-IsFresh start calls empty_cache (empty_cache-IsFresh start) in
      let answered = resolve_cached-Answered after.0 zone_id after.1 fresh in
      LookedUp-IsRecent after.0 answered.until zone_id _ answered.kept answered.looked_up

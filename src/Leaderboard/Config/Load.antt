-- ===== src/Leaderboard/Config/Load.antt =====
-- leaderboard-poc/internal/config/config.go: for which environments `Load` gives a configuration.
use classic_cheese.Prelude.{
  ◌≡◌, ◌≢◌, ◌⊎◌, inl, inr, refl, ap, ◌∙◌, String, String_discrete, none, some, if_pos, if_neg,
  Option-cases, sym, arith,
}
use classic_cheese.Prelude.Int.{ℤ, pos}
use classic_cheese.Prelude.Decimal.{atoi}
use classic_cheese.Leaderboard.Config.{
  Config, Result, ok, err, get_env, int_of, get_env_int, with_ints, load,
}

none-ne-some : (v : ℤ) → none ≢ some v
none-ne-some v e = ground arith

module _ (env : String → String) where
  -- The variable's value, or the fallback if it is not set.
  abbrev pub Reads : String → String → String → Type 0
  Reads key fallback v = ((env key ≡ "") × (v ≡ fallback)) ⊎ ((env key ≢ "") × (v ≡ env key))

  abbrev pub ReadsInt : String → ℤ → ℤ → Type 0
  ReadsInt key fallback v =
      ((env key ≡ "") × (v ≡ fallback)) ⊎ ((env key ≢ "") × (atoi (env key) ≡ some v))

  -- The variable is not set or a number.
  abbrev pub IsNumber : String → Type 0
  IsNumber key = (env key ≡ "") ⊎ (atoi (env key) ≢ none)

  abbrev pub IsComplete : Type 0
  IsComplete =
      (env "MYSQL_DSN" ≢ "")
      × (env "RABBITMQ_URL" ≢ "")
      × IsNumber "AGGREGATION_INTERVAL_SECONDS"
      × IsNumber "RANK_CROSS_THRESHOLD"

  pub record Reflects (c : Config) : Type 0 where
    pub dsn : c.mysql_dsn ≡ env "MYSQL_DSN"
    pub url : c.rabbitmq_url ≡ env "RABBITMQ_URL"
    pub addr : Reads "REDIS_ADDR" "localhost:6379" c.redis_addr
    pub exchange : Reads "RABBITMQ_EXCHANGE" "score-events" c.rabbitmq_exchange
    pub port : Reads "HTTP_PORT" "8080" c.http_port
    pub interval : ReadsInt "AGGREGATION_INTERVAL_SECONDS" (pos 5) c.aggregation_interval_second
    pub threshold : ReadsInt "RANK_CROSS_THRESHOLD" (pos 3) c.rank_cross_threshold

  get_env-Reads : (key fallback : String) → Reads key fallback (get_env env key fallback)
  unfolding get_env
  get_env-Reads key fallback = elim (String_discrete (env key) "") [
    | yes e ↦ inl (e, if_pos (String_discrete (env key) "") e _ _)
    | no n ↦ inr (n, if_neg (String_discrete (env key) "") n _ _)
  ]

  module _ (quote atoi_error : String → String) where
    get_env_int-ReadsInt :
        (key : String) (fallback : ℤ)
        → IsNumber key
        → (v : ℤ) × (get_env_int env quote atoi_error key fallback ≡ ok v) × ReadsInt key fallback v
    unfolding get_env_int int_of
    get_env_int-ReadsInt key fallback h = elim (String_discrete (env key) "") [
      | yes e ↦ (fallback, if_pos (String_discrete (env key) "") e _ _, inl (e, refl))
      | no n ↦ number n h (Option-cases (atoi (env key)))
    ]
      where
        number :
            env key ≢ ""
            → IsNumber key
            → (atoi (env key) ≡ none) ⊎ ((v : ℤ) × (atoi (env key) ≡ some v))
            → (v : ℤ) × (get_env_int env quote atoi_error key fallback ≡ ok v)
              × ReadsInt key fallback v
        number n (inl e) o = absurd (n e)
        number n (inr some_number) (inl e) = absurd (some_number e)
        number n (inr some_number) (inr (v, e)) = (
          v,
          if_neg (String_discrete (env key) "") n _ _
              ∙ ap (int_of env quote atoi_error key (env key)) e,
          inr (n, e),
        )

    -- A complete environment is one with a DSN, a broker URL and, where they are set, numbers: it gives
    -- a configuration that has the value of each variable or the default of one that is not set.
    pub load-Reflects : IsComplete → (c : Config) × (load env quote atoi_error ≡ ok c) × Reflects c
    unfolding load with_ints
    load-Reflects (has_dsn, has_url, interval, threshold) =
        let (i, made_i, reads_i) =
          get_env_int-ReadsInt "AGGREGATION_INTERVAL_SECONDS" (pos 5) interval in
        let (t, made_t, reads_t) = get_env_int-ReadsInt "RANK_CROSS_THRESHOLD" (pos 3) threshold in
        (
          _,
          rw
              (
                if_neg (String_discrete (env "MYSQL_DSN") "") has_dsn,
                if_neg (String_discrete (env "RABBITMQ_URL") "") has_url,
                made_i,
                made_t,
              )
              refl,
          record {
            dsn = refl;
            url = refl;
            addr = get_env-Reads "REDIS_ADDR" "localhost:6379";
            exchange = get_env-Reads "RABBITMQ_EXCHANGE" "score-events";
            port = get_env-Reads "HTTP_PORT" "8080";
            interval = reads_i;
            threshold = reads_t;
          },
        )

    IsNumber-cases : (key : String) → IsNumber key ⊎ ((env key ≢ "") × (atoi (env key) ≡ none))
    IsNumber-cases key = elim (String_discrete (env key) "") [
      | yes e ↦ inl (inl e)
      | no n ↦ elim (Option-cases (atoi (env key))) [
        | inl e ↦ inr (n, e)
        | inr (v, e) ↦ inl (inr (λ p. none-ne-some v (sym p ∙ e)))
      ]
    ]

    get_env_int-refused :
        (key : String) (fallback : ℤ)
        → (env key ≢ "") × (atoi (env key) ≡ none)
        → (text : String) × (get_env_int env quote atoi_error key fallback ≡ err text)
    unfolding get_env_int int_of
    get_env_int-refused key fallback (n, e) = (
      _,
      if_neg (String_discrete (env key) "") n _ _
          ∙ ap (int_of env quote atoi_error key (env key)) e,
    )

    with_ints-refused :
        (interval threshold : Result ℤ) (text : String)
        → threshold ≡ err text
        → (t : String) × (with_ints env quote atoi_error interval threshold ≡ err t)
    unfolding with_ints
    with_ints-refused (err t) threshold text e = (t, refl)
    with_ints-refused (ok i) threshold text e = (text, ap (with_ints env quote atoi_error (ok i)) e)

    -- Any other environment is refused with a message.
    load_refuses : ¬ IsComplete → (text : String) × (load env quote atoi_error ≡ err text)
    unfolding load with_ints
    load_refuses h = elim (String_discrete (env "MYSQL_DSN") "") [
      | yes e ↦ (_, if_pos (String_discrete (env "MYSQL_DSN") "") e _ _)
      | no has_dsn ↦ elim (String_discrete (env "RABBITMQ_URL") "") [
        | yes e ↦ (
          _,
          if_neg (String_discrete (env "MYSQL_DSN") "") has_dsn _ _
              ∙ if_pos (String_discrete (env "RABBITMQ_URL") "") e _ _,
        )
        | no has_url ↦ refused has_dsn has_url (IsNumber-cases "AGGREGATION_INTERVAL_SECONDS")
      ]
    ]
      where
        reaches :
            env "MYSQL_DSN" ≢ ""
            → env "RABBITMQ_URL" ≢ ""
            → load env quote atoi_error
              ≡ with_ints env quote atoi_error
                  (get_env_int env quote atoi_error "AGGREGATION_INTERVAL_SECONDS" (pos 5))
                  (get_env_int env quote atoi_error "RANK_CROSS_THRESHOLD" (pos 3))
        reaches has_dsn has_url =
            rw
              (
                if_neg (String_discrete (env "MYSQL_DSN") "") has_dsn,
                if_neg (String_discrete (env "RABBITMQ_URL") "") has_url,
              )
              refl

        refused :
            env "MYSQL_DSN" ≢ ""
            → env "RABBITMQ_URL" ≢ ""
            → IsNumber "AGGREGATION_INTERVAL_SECONDS"
              ⊎ ((env "AGGREGATION_INTERVAL_SECONDS" ≢ "")
                  × (atoi (env "AGGREGATION_INTERVAL_SECONDS") ≡ none))
            → (text : String) × (load env quote atoi_error ≡ err text)
        refused has_dsn has_url (inr bad) =
            let (text, e) = get_env_int-refused "AGGREGATION_INTERVAL_SECONDS" (pos 5) bad in
            (text, reaches has_dsn has_url ∙ rw e refl)
        refused has_dsn has_url (inl good) = elim (IsNumber-cases "RANK_CROSS_THRESHOLD") [
          | inl fine ↦ absurd (h (has_dsn, has_url, good, fine))
          | inr bad ↦
              let (text, e) = get_env_int-refused "RANK_CROSS_THRESHOLD" (pos 3) bad in
              let (t, e') = with_ints-refused _ _ text e in (t, reaches has_dsn has_url ∙ e')
        ]

-- ===== src/JetStream/Ensure.antt =====
-- What `ensureStream` (orchestrator/orchestrator.go) leaves at the server. What it relies on of
-- package nats.go: asking for a stream changes nothing, and a stream that was created or updated
-- without an error has the configuration that was sent.
use mathlib.Core.Path.{subst}
use serverless_gpu_linode.Common.{
  ◌≡◌, ◌↔◌, refl, sym, ap, ◌⊎◌, inl, inr, String, true, ◌&&◌, List, [], ◌∷◌, Option, none, some, ok,
  err, arith, Result-cases, Option-cases, Bool-cases, str_eq_iff,
}
use serverless_gpu_linode.JetStream.{
  RetentionPolicy, same_retention, StreamConfig, StreamInfo, JetStream, EnsureError, same_subjects,
  create_stream, ensure_stream,
}

pub same_retention_sound : (a b : RetentionPolicy) → same_retention a b ≡ true → a ≡ b
same_retention_sound a b h = ground arith

same_subjects_sound : (xs ys : List String) → same_subjects xs ys ≡ true → xs ≡ ys
unfolding same_subjects
same_subjects_sound [] [] h = refl
same_subjects_sound [] (b ∷ bs) h = ground arith
same_subjects_sound (a ∷ as') [] h = ground arith
same_subjects_sound (a ∷ as') (b ∷ bs) h =
    ground (arith, str_eq_iff a b, same_subjects_sound as' bs)

same_subjects_refl : (xs : List String) → same_subjects xs xs ≡ true
unfolding same_subjects
same_subjects_refl [] = refl
same_subjects_refl (x ∷ xs) = ground (arith, str_eq_iff x x, same_subjects_refl xs)

-- `sameSubjects` holds exactly of equal lists: the same subjects in the same order.
pub same_subjects_iff : (xs ys : List String) → (same_subjects xs ys ≡ true) ↔ (xs ≡ ys)
same_subjects_iff xs ys = (
  same_subjects_sound xs ys,
  λ e. subst (λ zs. same_subjects xs zs ≡ true) e (same_subjects_refl xs),
)

module _ {W : Type 0} (js : JetStream W) where
  pub record IsDocumented : Type 0 where
    pub reads : (w : W) (name : String) → (js.stream_info w name).0 ≡ w
    pub adds :
        (w : W) (cfg : StreamConfig)
        → (js.add_stream w cfg).1 ≡ none
        → (si : StreamInfo) × ((js.stream_info (js.add_stream w cfg).0 cfg.name).1 ≡ ok si)
          × (si.config ≡ cfg)
    pub updates :
        (w : W) (cfg : StreamConfig)
        → (js.update_stream w cfg).1 ≡ none
        → (si : StreamInfo) × ((js.stream_info (js.update_stream w cfg).0 cfg.name).1 ≡ ok si)
          × (si.config ≡ cfg)

  -- The server has the stream, with the subjects and the retention.
  abbrev pub HasStream : W → String → List String → RetentionPolicy → Type 0
  HasStream w name subjects retention =
      (si : StreamInfo) × ((js.stream_info w name).1 ≡ ok si)
      × (si.config.subjects ≡ subjects)
      × (si.config.retention ≡ retention)

  -- The stream was missing, could not be created, and is there all the same.
  abbrev pub HasAppeared : W → String → List String → RetentionPolicy → Type 0
  HasAppeared w name subjects retention =
      let cfg : StreamConfig = record { name = name; subjects = subjects; retention = retention } in
      (e : String) × (x : String) × (si : StreamInfo) × ((js.stream_info w name).1 ≡ err e)
      × ((js.add_stream w cfg).1 ≡ some x)
      × ((js.stream_info (js.add_stream w cfg).0 name).1 ≡ ok si)

  module _ (d : IsDocumented) (w : W) (name : String) (subjects : List String)
      (retention : RetentionPolicy) where
    abbrev config : StreamConfig
    config = record { name = name; subjects = subjects; retention = retention }

    -- What is promised of an answer.
    abbrev Promised : W × Option EnsureError → Type 0
    Promised a =
        a.1 ≡ none → HasStream a.0 name subjects retention ⊎ HasAppeared w name subjects retention

    ensure_stream_missing :
        {e : String} → (js.stream_info w name).1 ≡ err e → Promised (create_stream js w config)
    unfolding create_stream
    ensure_stream_missing {e} missing = elim (Option-cases (js.add_stream w config).1) [
      | inl added ↦
          let (si, there, same) = d.adds w config added in
          rw (added, create_stream)
            (λ _. inl (si, there, ap (λ c. c.subjects) same, ap (λ c. c.retention) same))
      | inr (x, failed) ↦ elim (Result-cases (js.stream_info (js.add_stream w config).0 name).1) [
        | inl (si, there) ↦
            rw (failed, create_stream, there) (λ _. inr (e, x, si, missing, refl, refl))
        | inr (y, gone) ↦ rw (failed, create_stream, gone) (λ q. absurd (cc))
      ]
    ]

    ensure_stream-create_stream :
        {e : String}
        → (js.stream_info w name).1 ≡ err e
        → ensure_stream js w name subjects retention ≡ create_stream js w config
    unfolding ensure_stream
    ensure_stream-create_stream missing = rw (missing, ensure_stream, d.reads w name) refl

    ensure_stream_promise : Promised (ensure_stream js w name subjects retention)
    unfolding ensure_stream
    ensure_stream_promise = elim (Result-cases (js.stream_info w name).1) [
      | inr (e, missing) ↦
          subst Promised (sym (ensure_stream-create_stream missing)) (ensure_stream_missing missing)
      | inl (si, there) ↦
          elim (Bool-cases (
            same_retention si.config.retention retention
            && same_subjects si.config.subjects subjects)) [
              | inl same ↦
                  rw (there, ensure_stream, same, d.reads w name)
                    (λ _. inl (
                      si,
                      there,
                      same_subjects_sound si.config.subjects subjects (ground arith),
                      same_retention_sound si.config.retention retention (ground arith),
                    ))
              | inr differ ↦ elim (Option-cases (js.update_stream w config).1) [
                | inl updated ↦
                    let (after, now_there, now_same) = d.updates w config updated in
                    rw (there, ensure_stream, differ, d.reads w name, updated, d.reads w name)
                      (λ _. inl (
                        after,
                        now_there,
                        ap (λ c. c.subjects) now_same,
                        ap (λ c. c.retention) now_same,
                      ))
                | inr (x, failed) ↦
                    rw (there, ensure_stream, differ, d.reads w name, failed) (λ q. absurd (cc))
              ]
            ]
    ]

  -- Where `ensureStream` reports no error, the server has the stream with exactly the subjects and
  -- the retention asked for; except that a stream which was missing, could not be created and is
  -- found there afterwards is accepted with whatever configuration it has.
  pub ensure_stream_ok :
      IsDocumented
      → (w : W) (name : String) (subjects : List String) (retention : RetentionPolicy)
      → (ensure_stream js w name subjects retention).1 ≡ none
      → HasStream (ensure_stream js w name subjects retention).0 name subjects retention
        ⊎ HasAppeared w name subjects retention
  ensure_stream_ok d w name subjects retention h =
      ensure_stream_promise d w name subjects retention h

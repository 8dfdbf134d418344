-- ===== src/Chmlfrp/Created.antt =====
-- What a request to create a tunnel at ChmlFrp leaves there.
use ashan_frp.Base.{
  ℕ, zero, suc, String, ◌<>◌, ◌≡◌, refl, ap, true, false, ◌⊎◌, inl, inr, Bool-cases,
}
use ashan_frp.Base.{string_eq}
use ashan_frp.Base.Result.{Result, ok, failed, is_failed}
use ashan_frp.Chmlfrp.{
  body_signals_failure, Body, unread, body, Remote, Attempt, made, retry, get_tunnels, looked_up,
  after_v1, after_v2, attempt, attempt_name, go_on, attempts, create_remote_tunnel, prefixed,
  starts,
}

module _ {Z : Type 0} (remote : Remote Z) where
  -- The remote answered a request to create this tunnel without a failure.
  abbrev pub Accepted : String → Type 0
  Accepted name =
      (z : Z) × (b : String) × (body_signals_failure remote.decode b ≡ false)
      × (((remote.create_v2 name z).1 ≡ body b) ⊎ ((remote.create_v1 name z).1 ≡ body b))

  after_v1-Accepted :
      (name id : String) (z : Z) (r : Z × Body)
      → remote.create_v1 name z ≡ r
      → (after_v1 remote name r).1 ≡ made id
      → Accepted name
  unfolding after_v1
  after_v1-Accepted name id z (z', unread e) at h = cc
  after_v1-Accepted name id z (z', body b) at h =
      elim (Bool-cases (body_signals_failure remote.decode b)) [
        | inl bad ↦ absurd (cc (rw bad at h))
        | inr good ↦ (z, b, good, inr (ap (λ x. x.1) at))
      ]

  after_v2-Accepted :
      (name id : String) (z : Z) (r : Z × Body)
      → remote.create_v2 name z ≡ r
      → (after_v2 remote name r).1 ≡ made id
      → Accepted name
  unfolding after_v2
  after_v2-Accepted name id z (z', unread e) at h =
      after_v1-Accepted name id z' (remote.create_v1 name z') refl h
  after_v2-Accepted name id z (z', body b) at h =
      elim (Bool-cases (body_signals_failure remote.decode b)) [
        | inl bad ↦ after_v1-Accepted name id z' (remote.create_v1 name z') refl (rw bad at h)
        | inr good ↦ (z, b, good, inl (ap (λ x. x.1) at))
      ]

  go_on-cases :
      (Goal : Type 0) (name id : String) (next : Z → String → Z × Result String) (z : Z)
      (r : Z × Attempt)
      → attempt remote name z ≡ r
      → (go_on remote next r).1 ≡ ok id
      → (Accepted name → Goal)
      → ((z' : Z) (e : String) → (next z' e).1 ≡ ok id → Goal)
      → Goal
  unfolding go_on attempt
  go_on-cases Goal name id next z (z', made i) at h here later =
      here (after_v2-Accepted name i z (remote.create_v2 name z) refl (ap (λ x. x.1) at))
  go_on-cases Goal name id next z (z', retry e) at h here later = later z' e h

  attempts-Accepted :
      (name id last : String) (suffix : ℕ → String) (left n : ℕ) (z : Z)
      → (attempts remote name suffix left n z last).1 ≡ ok id
      → (m : ℕ) × Accepted (attempt_name remote name suffix m)
  unfolding attempts
  attempts-Accepted name id last suffix zero n z h = cc
  attempts-Accepted name id last suffix (suc left) n z h =
      go_on-cases ((m : ℕ) × Accepted (attempt_name remote name suffix m))
        (attempt_name remote name suffix n) id
        (λ z' e. attempts remote name suffix left (suc n) z' e) z
        (attempt remote (attempt_name remote name suffix n) z) refl h (λ a. (n, a))
        (λ z' e later. attempts-Accepted name id e suffix left (suc n) z' later)

  -- Where a tunnel is answered, ChmlFrp has taken a request to create one of that name, or of that
  -- name with the suffix of an attempt.
  pub create_remote_tunnel-Accepted :
      (name id : String) (suffix : ℕ → String) (z : Z)
      → (create_remote_tunnel remote name suffix z).1 ≡ ok id
      → (m : ℕ) × Accepted
          (attempt_name remote (prefixed remote name (starts "[ashan-frp]" name)) suffix m)
  unfolding create_remote_tunnel
  create_remote_tunnel-Accepted name id suffix z h = attempts-Accepted _ id "" suffix 3 0 z h

  -- The request of an attempt is taken and the list that is to confirm it cannot be read.
  attempt-retry :
      (add : String → Z → Z) (b e name : String) (z : Z)
      → remote.create_v2 name z ≡ (add name z, body b)
      → body_signals_failure remote.decode b ≡ false
      → get_tunnels remote (add name z) ≡ failed e
      → attempt remote name z
        ≡ (add name z, retry ("chmlfrp lookup tunnels " <> ("v2" <> (": " <> e))))
  unfolding attempt after_v2 looked_up
  attempt-retry add b e name z taken good unlisted = rw (taken, good, unlisted) refl

  -- Where every request to create a tunnel is taken, and the list of the tunnels cannot be read, the
  -- call ends with an error and leaves three tunnels behind.
  pub create_remote_tunnel-orphans :
      (add : String → Z → Z) (b e name : String) (suffix : ℕ → String) (z : Z)
      → ((n : String) (y : Z) → remote.create_v2 n y ≡ (add n y, body b))
      → body_signals_failure remote.decode b ≡ false
      → ((n : String) (y : Z) → get_tunnels remote (add n y) ≡ failed e)
      → let full = prefixed remote name (starts "[ashan-frp]" name) in
        let r = create_remote_tunnel remote name suffix z in
        (r.0 ≡ add (full <> ("-" <> suffix 2)) (add (full <> ("-" <> suffix 1)) (add full z)))
        × (is_failed r.1 ≡ true)
  unfolding create_remote_tunnel attempts go_on
  create_remote_tunnel-orphans add b e name suffix z taken good unlisted =
      let full = prefixed remote name (starts "[ashan-frp]" name) in
      let tried : (n : String) (y : Z)
          → attempt remote n y
            ≡ (add n y, retry ("chmlfrp lookup tunnels " <> ("v2" <> (": " <> e)))) =
        λ n y. attempt-retry add b e n y (taken n y) good (unlisted n y) in
      rw
        (
          tried full z,
          tried (full <> ("-" <> suffix 1)) (add full z),
          tried (full <> ("-" <> suffix 2)) (add (full <> ("-" <> suffix 1)) (add full z)),
        )
        (refl, refl)

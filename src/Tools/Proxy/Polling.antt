-- ===== src/Tools/Proxy/Polling.antt =====
-- The retry loop of `ActionResult`.
use Prim.Native.String.{◌++◌ as ◌+++◌}
use praesidio.Prelude.Decimal.{decimal}
use praesidio.Prelude.{
  ℕ, zero, suc, ◌≤◌, ◌<◌, true, false, Bytes, String, [], ◌∷◌, ◌++◌, ◌≡◌, refl, arith,
}
use praesidio.Validate.Host.{ok, err}
use praesidio.Tools.Chain.Calls.{History, Session, asked, record_call, ask, pure, lift, ◌>>=◌}
use praesidio.Tools.Proxy.{
  repeats, Services, Reply, no_reply, reply, is_status_ok, poll, result_url, after_poll,
  action_result,
}

-- The calls so far behind `k` rounds without an answer.
abbrev pub waited : ℕ → History → History
waited zero h = h
waited (suc k) h = waited k ((h ++ asked "GET /action/result" ∷ []) ++ asked "time.Sleep" ∷ [])

not-suc_below_zero : (k : ℕ) → suc k ≤ 0 → ⊥
not-suc_below_zero k h = omega arith

module _ (v : Services) (url : String) where
  -- The answer in round `k`.
  abbrev pub answer : ℕ → History → Reply
  answer k h = v.get (waited k h) url

  -- The last answer of a loop of `n` more rounds is the first that is fine.
  pub poll_found :
      (n k : ℕ) (s : Session)
      → k ≤ n
      → ((j : ℕ) → j < k → is_status_ok (answer j s.history) ≡ false)
      → is_status_ok (answer k s.history) ≡ true
      → poll v url n s ≡ (
        ok (answer k s.history),
        record s { history = waited k s.history ++ asked "GET /action/result" ∷ [] },
      )
  unfolding poll ◌>>=◌ ask pure
  poll_found zero zero s h early found = rw found refl
  poll_found zero (suc k) s h early found = elim (not-suc_below_zero k h) [ ]
  poll_found (suc n) zero s h early found = rw found refl
  poll_found (suc n) (suc k) s h early found = rw (early 0 (omega arith)) (
      poll_found n k (record_call (asked "time.Sleep") (record_call (asked "GET /action/result") s))
        (omega arith) (λ j g. early (suc j) (omega arith)) found)

  -- With no fine answer, the loop ends behind its last round with the last answer.
  pub poll_given_up :
      (n : ℕ) (s : Session)
      → ((j : ℕ) → j ≤ n → is_status_ok (answer j s.history) ≡ false)
      → poll v url n s ≡ (ok (answer n s.history), record s { history = waited (suc n) s.history })
  unfolding poll ◌>>=◌ ask pure
  poll_given_up zero s late = rw (late 0 (omega arith)) refl
  poll_given_up (suc n) s late = rw (late 0 (omega arith)) (
      poll_given_up n
        (record_call (asked "time.Sleep") (record_call (asked "GET /action/result") s))
        (λ j g. late (suc j) (omega arith)))

  after_poll_failed :
      (last : Reply) → is_status_ok last ≡ false → (text : String) × (after_poll v last ≡ err text)
  unfolding after_poll
  after_poll_failed (no_reply e) h = (e, refl)
  after_poll_failed (reply status body) h =
      ("action result status not ok, got: " +++ decimal status, rw h refl)

module _ (v : Services) (url : String) (action_id : Bytes) (s : Session) where
  abbrev round : ℕ → Reply
  round k = answer v (result_url v url action_id) k s.history

  -- Whatever was answered in the rounds before, all of them without the status 200: a result that
  -- a proxy answers with in one of the first 15 rounds is decoded, and is not asked for again.
  pub action_result_in_time :
      (k : ℕ) (body : Bytes)
      → k < repeats
      → ((j : ℕ) → j < k → is_status_ok (round j) ≡ false)
      → round k ≡ reply 200 body
      → action_result v url action_id s ≡ (
        v.decode_action body,
        record s { history = waited k s.history ++ asked "GET /action/result" ∷ [] },
      )
  unfolding action_result ◌>>=◌ lift after_poll
  action_result_in_time k body h early found =
      rw (poll_found v (result_url v url action_id) 14 k s (omega arith) early (rw found refl))
        (rw found refl)

  -- A result that no answer of the first 15 rounds has with the status 200 is given up with an
  -- error behind exactly 15 requests, each one followed by a pause.
  pub action_result_too_late :
      ((j : ℕ) → j < repeats → is_status_ok (round j) ≡ false)
      → (text : String) × (action_result v url action_id s
          ≡ (err text, record s { history = waited repeats s.history }))
  unfolding action_result ◌>>=◌ lift
  action_result_too_late late =
      let (text, e) =
        after_poll_failed v (result_url v url action_id) (round 14) (late 14 (omega arith)) in
      (
        text,
        rw (poll_given_up v (result_url v url action_id) 14 s (λ j h. late j (omega arith)))
            (rw e refl),
      )

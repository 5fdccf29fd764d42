-- ===== src/HttpCache/Errors.antt =====
-- Where the answer of a cached endpoint comes from.
use taas_server_py.Prelude.{
  ℕ, String, Bool, true, false, if◌then◌else◌, Option, none, some, ◌≡◌, refl, ◌⊎◌, inl, inr,
  Bool-cases, ap,
}
use taas_server_py.Exec.{is_exception, Result, ok, err, Action}
use taas_server_py.HttpCache.{
  Backend, Request, Response, Reply, value, not_modified, uncacheable, force_refresh, reply_of,
  with_ttl, with_cached, look_up, stored, encoded, missed, miss, decoded, hit_with, hit, found,
  inner, has_etag, served, with_backend, with_key,
}

module _ {E B R : Type 0} (backend : Backend E B) (encode : R → Result B) (decode : B → Result R)
    (etag_of : B → String) (func : Action E R) (key : String) (expire : ℕ)
    (request : Option Request) (response : Option (Response E)) where
  -- a value that the endpoint gave, or that an entry of the backend stands for
  pub Comes : E → R → Type 0
  Comes e r =
      ((s : E) × ((func s).0 ≡ ok r))
      ⊎ ((b : B) × ((backend.get key e).0 ≡ ok (some b)) × (decode b ≡ ok r))

  -- an error is the endpoint's own, or no `Exception`
  pub Answers : E → Result (Reply R) × E → Type 0
  Answers e (ok (value r), s) = Comes e r
  Answers e (ok not_modified, s) =
      (b : B) × ((backend.get key e).0 ≡ ok (some b)) × (has_etag request (etag_of b) ≡ true)
  Answers e (err x, s) = ((s : E) × ((func s).0 ≡ err x)) ⊎ (is_exception x ≡ false)

  call-Answers : (e s : E) (out : Result R × E) → func s ≡ out → Answers e (reply_of out)
  unfolding Answers Comes
  call-Answers e s (ok r, s') h = inl (s, ap (λ p. p.0) h)
  call-Answers e s (err x, s') h = inl (s, ap (λ p. p.0) h)

  stored-Answers :
      (e s : E) (r : R) (b : B) (out : Result (Unit {0}) × E)
      → (func s).0 ≡ ok r
      → Answers e (stored backend encode decode etag_of func key expire request response r b out)
  unfolding Answers Comes
  stored-Answers e s r b (ok _, s') h = inl (s, h)
  stored-Answers e s r b (err x, s') h = elim (Bool-cases (is_exception x)) [
    | inl usual ↦ rw usual (inl (s, h))
    | inr base ↦ rw base (inr base)
  ]

  encoded-Answers :
      (e s t : E) (r : R) (b : Result B)
      → (func s).0 ≡ ok r
      → Answers e (encoded backend encode decode etag_of func key expire request response r b t)
  unfolding Answers Comes
  encoded-Answers e s t r (ok b) h = stored-Answers e s r b (backend.set key b expire t) h
  encoded-Answers e s t r (err x) h = elim (Bool-cases (is_exception x)) [
    | inl usual ↦ rw usual (inl (s, h))
    | inr base ↦ rw base (inr base)
  ]

  missed-Answers :
      (e s : E) (out : Result R × E)
      → func s ≡ out
      → Answers e (missed backend encode decode etag_of func key expire request response out)
  unfolding Answers Comes
  missed-Answers e s (ok r, t) h = encoded-Answers e s t r (encode r) (ap (λ p. p.0) h)
  missed-Answers e s (err x, t) h = inl (s, ap (λ p. p.0) h)

  decoded-Answers :
      (e s : E) (b : B) (r : Result R)
      → (backend.get key e).0 ≡ ok (some b)
      → decode b ≡ r
      → Answers e (decoded backend encode decode etag_of func key expire request response r s)
  unfolding Answers Comes
  decoded-Answers e s b (ok r) h d = inr (b, h, d)
  decoded-Answers e s b (err x) h d = elim (Bool-cases (is_exception x)) [
    | inl usual ↦ rw usual (call-Answers e s (func s) refl)
    | inr base ↦ rw base (inr base)
  ]

  hit-Answers :
      (e s : E) (b : B) (ttl : Option ℕ) (given : Option (Response E))
      → (backend.get key e).0 ≡ ok (some b)
      → Answers e
          (hit_with backend encode decode etag_of func key expire request response given b ttl s)
  unfolding Answers
  hit-Answers e s b ttl none h = decoded-Answers e s b (decode b) h refl
  hit-Answers e s b ttl (some r) h = elim (Bool-cases (has_etag request (etag_of b))) [
    | inl same ↦ rw same (b, h, same)
    | inr other ↦ rw other (decoded-Answers e _ b (decode b) h refl)
  ]

  -- what a lookup finds is in the backend, and it raises no `Exception`
  Finds : E → Result (Option (B × Option ℕ)) × E → Type 0
  Finds e (ok none, s) = Unit
  Finds e (ok (some (b, ttl)), s) = (backend.get key e).0 ≡ ok (some b)
  Finds e (err x, s) = is_exception x ≡ false

  with_ttl-Finds :
      (e : E) (b : B) (out : Result (Option ℕ) × E)
      → (backend.get key e).0 ≡ ok (some b)
      → Finds e (with_ttl backend encode decode etag_of func key expire request response b out)
  unfolding Finds
  with_ttl-Finds e b (ok ttl, s) h = h
  with_ttl-Finds e b (err x, s) h = elim (Bool-cases (is_exception x)) [
    | inl usual ↦ rw usual tt
    | inr base ↦ rw base base
  ]

  with_cached-Finds :
      (e : E) (out : Result (Option B) × E)
      → backend.get key e ≡ out
      → Finds e (with_cached backend encode decode etag_of func key expire request response out)
  unfolding Finds
  with_cached-Finds e (ok none, s) h = tt
  with_cached-Finds e (ok (some b), s) h =
      with_ttl-Finds e b (backend.expires_in key s) (ap (λ p. p.0) h)
  with_cached-Finds e (err x, s) h = elim (Bool-cases (is_exception x)) [
    | inl usual ↦ rw usual tt
    | inr base ↦ rw base base
  ]

  found-Answers :
      (e : E) (out : Result (Option (B × Option ℕ)) × E)
      → Finds e out
      → Answers e (found backend encode decode etag_of func key expire request response out)
  unfolding Answers Finds miss hit
  found-Answers e (ok none, s) h = missed-Answers e s (func s) refl
  found-Answers e (ok (some (b, ttl)), s) h = elim (Bool-cases (force_refresh request)) [
    | inl fresh ↦ rw fresh (missed-Answers e s (func s) refl)
    | inr cached ↦ rw cached (hit-Answers e s b ttl response h)
  ]
  found-Answers e (err x, s) h = inr h

  served-Answers :
      (e : E) → Answers e (served backend encode decode etag_of func key expire request response e)
  unfolding served look_up
  served-Answers e = found-Answers e _ (with_cached-Finds e (backend.get key e) refl)

module _ {E B R : Type 0} (encode : R → Result B) (decode : B → Result R) (etag_of : B → String)
    (func : Action E R) (cache_key : Action E String)
    (get_cache_service : E → Result (Backend E B) × E) (expire : ℕ) (request : Option Request)
    (response : Option (Response E)) where
  -- by the outcome of the look-up of the backend
  unfoldable pub AnswersWith : String → Result (Backend E B) × E → Result (Reply R) × E → Type 0
  AnswersWith key (ok backend, e) out =
      Answers backend encode decode etag_of func key expire request response e out
  AnswersWith key (err exn, e) out = out ≡ (err exn, e)

  -- by the outcome of the making of the key
  unfoldable pub AnswersFor : Result String × E → Result (Reply R) × E → Type 0
  AnswersFor (ok key, e) out = AnswersWith key (get_cache_service e) out
  AnswersFor (err exn, e) out = out ≡ (err exn, e)

  with_backend-AnswersWith :
      (key : String) (service : Result (Backend E B) × E)
      → AnswersWith key service (
          with_backend encode decode etag_of func cache_key get_cache_service expire request
            response key service)
  unfolding AnswersWith
  with_backend-AnswersWith key (ok backend, e) =
      served-Answers backend encode decode etag_of func key expire request response e
  with_backend-AnswersWith key (err exn, e) = refl

  with_key-AnswersFor :
      (made : Result String × E)
      → AnswersFor made (
          with_key encode decode etag_of func cache_key get_cache_service expire request response
            made)
  unfolding AnswersFor
  with_key-AnswersFor (ok key, e) = with_backend-AnswersWith key (get_cache_service e)
  with_key-AnswersFor (err exn, e) = refl

  -- A request that is not to be cached gets the answer of the endpoint alone. For another, an error in
  -- the making of the key or in the look-up of the backend is raised; after these, whatever the
  -- backend and the codec raise, an `Exception` that is raised is the endpoint's own, a value is
  -- returned by the endpoint or decoded from the backend's entry, and the status 304 is only given
  -- where the request names the entity tag of that entry.
  pub inner-Answers :
      (enabled : Bool) (e : E)
      → let out =
          inner encode decode etag_of func cache_key get_cache_service expire request response
            enabled e in
        if uncacheable enabled request
        then out ≡ reply_of (func e)
        else AnswersFor (cache_key e) out
  unfolding inner
  inner-Answers enabled e = elim (Bool-cases (uncacheable enabled request)) [
    | inl bypass ↦ rw bypass refl
    | inr cacheable ↦ rw cacheable (with_key-AnswersFor (cache_key e))
  ]

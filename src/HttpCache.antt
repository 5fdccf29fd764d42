-- ===== src/HttpCache.antt =====
-- libs/foundation/src/foundation/http/cache.py: the call that the `cache` decorator makes of an
-- endpoint. The backend and the look-up of it, the making of the key (the settings, the key builder and
-- the assertion on its result), the JSON codec, the hash of an entity tag and the framework's response
-- are parameters; the lifetime is the one that the call works out from its settings.
pub mod Errors
use taas_server_py.Prelude.{
  ℕ, String, Bool, true, false, ◌||◌, not, Option, none, some, str_eq, if◌then◌else◌,
}
use taas_server_py.Exec.{Exn, is_exception, Result, ok, err, Action}

-- `CacheServiceT`
pub record Backend (E B : Type 0) : Type 0 where
  pub get : String → Action E (Option B)
  pub expires_in : String → Action E (Option ℕ)
  pub set : String → B → ℕ → Action E (Unit {0})

-- what is read of a request
pub record Request : Type 0 where
  pub method : String
  pub cache_control : Option String
  pub if_none_match : Option String

-- what is done to a response, where a failure is passed over: its headers are set to a maximal age, an
-- entity tag and `HIT` or `MISS`, and its status to 304
pub record Response (E : Type 0) : Type 0 where
  pub update : ℕ → String → String → E → E
  pub set_not_modified : E → E

-- the value of an endpoint, or the response with status 304
pub data Reply (R : Type 0) : Type 0 where
  value : R → Reply R
  not_modified : Reply R

abbrev pub text_is : Option String → String → Bool
text_is none s = false
text_is (some t) s = str_eq t s

-- `_uncacheable`, by whether the cache is enabled
unfoldable pub uncacheable : Bool → Option Request → Bool
uncacheable enabled none = not enabled
uncacheable enabled (some request) =
    not enabled || not (str_eq request.method "GET") || text_is request.cache_control "no-store"

-- the request asks for a fresh value
abbrev pub force_refresh : Option Request → Bool
force_refresh none = false
force_refresh (some request) = text_is request.cache_control "no-cache"

abbrev pub has_etag : Option Request → String → Bool
has_etag none etag = false
has_etag (some request) etag = text_is request.if_none_match etag

module _ {E R : Type 0} where
  abbrev pub reply_of : Result R × E → Result (Reply R) × E
  reply_of (ok r, e) = (ok (value r), e)
  reply_of (err exn, e) = (err exn, e)

module _ {E B R : Type 0} (backend : Backend E B) (encode : R → Result B) (decode : B → Result R)
    (etag_of : B → String) (func : Action E R) (key : String) (expire : ℕ)
    (request : Option Request) (response : Option (Response E)) where
  abbrev call : E → Result (Reply R) × E
  call e = reply_of (func e)

  -- the lookup, where an `Exception` counts as no entry
  abbrev with_ttl : B → Result (Option ℕ) × E → Result (Option (B × Option ℕ)) × E
  with_ttl cached (ok ttl, e) = (ok (some (cached, ttl)), e)
  with_ttl cached (err exn, e) = (if is_exception exn then ok none else err exn, e)

  abbrev with_cached : Result (Option B) × E → Result (Option (B × Option ℕ)) × E
  with_cached (ok none, e) = (ok none, e)
  with_cached (ok (some cached), e) = with_ttl cached (backend.expires_in key e)
  with_cached (err exn, e) = (if is_exception exn then ok none else err exn, e)

  pub look_up : E → Result (Option (B × Option ℕ)) × E
  look_up e = with_cached (backend.get key e)

  abbrev tell : Option (Response E) → ℕ → String → String → E → E
  tell none age etag mark e = e
  tell (some r) age etag mark e = r.update age etag mark e

  -- the write, where an `Exception` is passed over
  abbrev stored : R → B → Result (Unit {0}) × E → Result (Reply R) × E
  stored r to_cache (ok _, e) = (ok (value r), tell response expire (etag_of to_cache) "MISS" e)
  stored r to_cache (err exn, e) =
      if is_exception exn
      then (ok (value r), tell response expire (etag_of to_cache) "MISS" e)
      else (err exn, e)

  abbrev encoded : R → Result B → E → Result (Reply R) × E
  encoded r (ok to_cache) e = stored r to_cache (backend.set key to_cache expire e)
  encoded r (err exn) e = (if is_exception exn then ok (value r) else err exn, e)

  abbrev missed : Result R × E → Result (Reply R) × E
  missed (ok r, e) = encoded r (encode r) e
  missed (err exn, e) = (err exn, e)

  pub miss : E → Result (Reply R) × E
  miss e = missed (func e)

  abbrev decoded : Result R → E → Result (Reply R) × E
  decoded (ok r) e = (ok (value r), e)
  decoded (err exn) e = if is_exception exn then call e else (err exn, e)

  abbrev age_of : Option ℕ → ℕ
  age_of none = expire
  age_of (some ttl) = ttl

  abbrev hit_with : Option (Response E) → B → Option ℕ → E → Result (Reply R) × E
  hit_with none cached ttl e = decoded (decode cached) e
  hit_with (some r) cached ttl e =
      let e' = r.update (age_of ttl) (etag_of cached) "HIT" e in
      if has_etag request (etag_of cached)
      then (ok not_modified, r.set_not_modified e')
      else decoded (decode cached) e'

  pub hit : B → Option ℕ → E → Result (Reply R) × E
  hit = hit_with response

  abbrev found : Result (Option (B × Option ℕ)) × E → Result (Reply R) × E
  found (err exn, e) = (err exn, e)
  found (ok none, e) = miss e
  found (ok (some (cached, ttl)), e) = if force_refresh request then miss e else hit cached ttl e

  -- what follows the look-up of the backend
  pub served : E → Result (Reply R) × E
  unfolding look_up miss hit
  served e = found (look_up e)

module _ {E B R : Type 0} (encode : R → Result B) (decode : B → Result R) (etag_of : B → String)
    (func : Action E R) (cache_key : Action E String)
    (get_cache_service : E → Result (Backend E B) × E) (expire : ℕ) (request : Option Request)
    (response : Option (Response E)) where
  abbrev pub with_backend : String → Result (Backend E B) × E → Result (Reply R) × E
  with_backend key (ok backend, e) =
      served backend encode decode etag_of func key expire request response e
  with_backend key (err exn, e) = (err exn, e)

  abbrev pub with_key : Result String × E → Result (Reply R) × E
  with_key (ok key, e) = with_backend key (get_cache_service e)
  with_key (err exn, e) = (err exn, e)

  -- `inner`
  pub inner : Bool → E → Result (Reply R) × E
  inner enabled e =
      if uncacheable enabled request then reply_of (func e) else with_key (cache_key e)

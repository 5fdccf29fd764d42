-- ===== src/Tests/Caching.antt =====
-- The cached endpoints of libs/foundation with a backend of numbers that counts the endpoint's calls.
use taas_server_py.Prelude.{ℕ, ◌+◌, String, true, Option, none, some, str_eq, if◌then◌else◌}
use taas_server_py.Exec.{ok, Action}
use taas_server_py.HttpCache.{Backend, Request, Response, inner, uncacheable}
use taas_server_py.HttpCache.Errors.{AnswersFor, inner-Answers}

abbrev World : Type 0
World = (String → Option ℕ) × ℕ

abbrev backend : Backend World ℕ
backend = record {
  get = λ k e. (ok (e.0 k), e);
  expires_in = λ k e. (ok (some 60), e);
  set = λ k b n e. (ok tt, ((λ j. if str_eq k j then some b else e.0 j), e.1));
}

abbrev endpoint : Action World ℕ
endpoint e = (ok 7, (e.0, e.1 + 1))

abbrev tag : ℕ → String
tag b = "W/7"

-- the client has the value 7
abbrev get_request : Option Request
get_request = some (record { method = "GET"; cache_control = none; if_none_match = some "W/7" })

abbrev response : Option (Response World)
response = some (record { update = λ age etag mark e. e; set_not_modified = λ e. e })

abbrev warm : World
warm = ((λ k. some 7), 0)

abbrev key_of : Action World String
key_of e = (ok "app:k", e)

inner-Answers_example :
    AnswersFor ok ok tag endpoint key_of
      (λ e. (ok backend, e))
      60
      get_request
      response
      (key_of warm)
      (inner ok ok tag endpoint key_of (λ e. (ok backend, e)) 60 get_request response true warm)
unfolding uncacheable
inner-Answers_example =
    inner-Answers ok ok tag endpoint key_of (λ e. (ok backend, e)) 60 get_request response true warm

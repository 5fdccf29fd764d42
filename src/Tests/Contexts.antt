-- ===== src/Tests/Contexts.antt =====
-- A context that two calls share, at concrete inputs: the first fetches, and the second gets its value.
use taas_server_py.Prelude.{ℕ, none, ◌≡◌, ◌⊎◌, refl, inl, inr, lookup, insert}
use taas_server_py.HandlerContext.{
  System, Call, fetching, served, fetched, waiting, start, arrive, proceed, succeed, calls, arrives,
  proceeds, succeeds, Reachable, begun, next, Undisturbed, arrived, get, enter, double_check,
  finish_fetch, set, CallStep,
}
use taas_server_py.HandlerContext.Serial.{Serialized, Reachable-Serialized}
use taas_server_py.HandlerContext.Counts.{Counted, Reachable-Counted}
use taas_server_py.HandlerContext.Once.{fetch_once}

abbrev waiter : Call ℕ
waiter = record { key = "tx"; ttl = none; phase = waiting }

abbrev fetcher : Call ℕ
fetcher = record waiter { phase = fetching }

abbrev both_wait : System ℕ
both_wait = arrive "tx" none (arrive "tx" none (start none 100))

abbrev first_fetches : System ℕ
first_fetches = proceed 0 waiter both_wait

abbrev first_returns : System ℕ
first_returns = succeed 0 fetcher 7 first_fetches

abbrev both_return : System ℕ
both_return = proceed 1 waiter first_returns

waits-Reachable : Reachable none 100 both_wait
waits-Reachable = next (next begun (arrives "tx" none)) (arrives "tx" none)

step_1 : CallStep both_wait first_fetches
unfolding enter get lookup insert
step_1 = proceeds 0 waiter refl refl refl

step_2 : CallStep first_fetches first_returns
unfolding enter get lookup insert double_check
step_2 = succeeds 0 fetcher 7 refl refl

step_3 : CallStep first_returns both_return
unfolding enter get lookup insert double_check finish_fetch set
step_3 = proceeds 1 waiter refl refl refl

Reachable-Serialized_example : Serialized first_fetches
Reachable-Serialized_example =
    Reachable-Serialized none 100 first_fetches (next waits-Reachable (calls step_1))

Reachable-Counted_example : Counted both_return.context.metrics both_return.calls
Reachable-Counted_example =
    Reachable-Counted none 100 both_return
      (next (next (next waits-Reachable (calls step_1)) (calls step_2)) (calls step_3))

both_return-Undisturbed : Undisturbed 100 both_return
both_return-Undisturbed =
    next (next (next (arrived (arrived begun "tx") "tx") step_1) step_2) step_3

fetch_once_example :
    (◌≡◌ {A = ℕ} 7 7)
    × ((◌≡◌ {A = ℕ} 0 1)
        ⊎ ((record fetcher { phase = fetched 7 }).phase ≡ served 7)
        ⊎ ((record fetcher { phase = served 7 }).phase ≡ served 7))
unfolding enter get lookup insert double_check finish_fetch set
fetch_once_example =
    fetch_once 100 both_return both_return-Undisturbed 0 1 (record fetcher { phase = fetched 7 })
      (record fetcher { phase = served 7 }) 7 7 refl refl refl (inr refl) (inl refl)

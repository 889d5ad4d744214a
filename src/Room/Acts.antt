-- ===== src/Room/Acts.antt =====
-- The first steps that the operations of websocket/protocol.rs share: the rate limit, and an answer
-- where a check fails.
use lqxp.Common.{ℕ, Bool, true, false, Option, none, some, ◌++◌, Text, text, text_Eq}
use Prim.Native.String.{String}
use lqxp.Core.RateLimit.{rate_limit_hit}
use lqxp.Room.Decide.{Verdict, allow, refuse}
use lqxp.Room.Server.{Act, Server, Env, respond_error, done}

-- The operation's number and its rate limit.
pub record Operation : Type 0 where
  pub op : ℕ
  pub prefix : String
  pub limit : ℕ
  pub window_ms : ℕ

unfoldable pub rate_limited : Operation → Text → Env → Act Bool
rate_limited o session_id env s =
    let (over, buckets) =
      rate_limit_hit (text o.prefix ++ session_id) o.limit o.window_ms env.now s.rate_limits in
    (some over, record s { rate_limits = buckets })

unfoldable pub or_respond : {A : Type 0} → Text → ℕ → Option A → String → Act A
or_respond session_id op none message = respond_error session_id op message
or_respond session_id op (some a) message = done a

unfoldable pub verdict : {A : Type 0} → Text → ℕ → Verdict A → Act A
verdict session_id op (refuse message) = respond_error session_id op message
verdict session_id op (allow a) = done a

unfoldable pub stop_if : Bool → Text → ℕ → String → Act (Unit {0})
stop_if true session_id op message = respond_error session_id op message
stop_if false session_id op message = done tt

abbrev pub get : Act Server
get s = (some s, s)

abbrev pub update : (Server → Server) → Act (Unit {0})
update f s = (some tt, f s)

-- ===== src/Communication/Log.antt =====
-- The bounded message lists of agent-bus.ts and agent-channel.ts: a message is pushed, and the
-- oldest one goes when the list has grown past its limit.
use nexus_ai_workspace.Common.{
  ℕ, zero, suc, ◌≡◌, refl, List, [], ◌∷◌, ◌++◌, Bool-cases, inl, inr, arith, ◌≤◌, ◌<◌, ◌-◌, ltb,
  length, length-append, if◌then◌else◌, Option, none, some,
}
use nexus_ai_workspace.Communication.Message.{AgentMessage}

abbrev pub shift : List AgentMessage → List AgentMessage
shift [] = []
shift (m ∷ ms) = ms

unfoldable pub add_to_log : ℕ → AgentMessage → List AgentMessage → List AgentMessage
add_to_log limit m log =
    let longer = log ++ m ∷ [] in if ltb limit (length longer) then shift longer else longer

abbrev pub drop : ℕ → List AgentMessage → List AgentMessage
drop zero xs = xs
drop (suc n) [] = []
drop (suc n) (x ∷ xs) = drop n xs

-- `limit && limit > 0 ? log.slice(-limit) : [...log]`
unfoldable pub latest : Option ℕ → List AgentMessage → List AgentMessage
latest none log = log
latest (some n) log = if ltb 0 n then drop (length log - n) log else log

length-shift : (ms : List AgentMessage) → length (shift ms) ≡ length ms - 1
length-shift [] = refl
length-shift (m ∷ ms) = omega arith

pub add_to_log-le :
    (limit : ℕ) (m : AgentMessage) (log : List AgentMessage)
    → length log ≤ limit
    → length (add_to_log limit m log) ≤ limit
unfolding add_to_log
add_to_log-le limit m log h = elim (Bool-cases (ltb limit (length (log ++ m ∷ [])))) [
  | inl e ↦ rw e (omega (arith, length-shift (log ++ m ∷ []), length-append log (m ∷ [])))
  | inr e ↦ rw e (ground arith)
]

pub add_to_log_room :
    (limit : ℕ) (m : AgentMessage) (log : List AgentMessage)
    → length log < limit
    → add_to_log limit m log ≡ log ++ m ∷ []
unfolding add_to_log
add_to_log_room limit m log h = ground (arith, length-append log (m ∷ []))

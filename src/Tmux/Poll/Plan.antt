-- ===== src/Tmux/Poll/Plan.antt =====
-- The sessions that a poll plans to look at: none of them twice.
use solstone_tmux.Base.{
  ℕ, ◌≡◌, inl, inr, Bool, true, false, List, [], ◌∷◌, ◌++◌, Text, none, ℤ, any, All, Apart,
  Apart-snoc, text_eq, text_eq_iff, Bool-cases, arith,
}
use solstone_tmux.Model.{ClientInfo, CaptureResult}
use solstone_tmux.Tmux.Clients.{active_clients, is_recent}
use solstone_tmux.Tmux.Clients.Latest.{activity_of, ClientsDistinct}
use solstone_tmux.Tmux.Poll.{add_sessions, client_sessions}

abbrev pub same_client : ClientInfo → ClientInfo → Bool
same_client c d = text_eq c.session d.session

abbrev pub same_planned : Text × Bool → Text × Bool → Bool
same_planned (s, a) (t, b) = text_eq s t

abbrev pub same_capture : CaptureResult → CaptureResult → Bool
same_capture c d = text_eq c.session d.session

-- The sessions of captures and of what is still planned.
abbrev pub Planned : List CaptureResult → List (Text × Bool) → Type 0
Planned captures plan = All (λ c. All (λ (t, b). text_eq c.session t ≡ false) plan) captures

unsessioned :
    (s : Text) (clients : List ClientInfo)
    → activity_of s clients ≡ none
    → All (λ c. text_eq s c.session ≡ false) clients
unfolding activity_of
unsessioned s [] h = tt
unsessioned s (c ∷ clients) h = (
  ground (arith, h, text_eq_iff s c.session, text_eq_iff c.session s),
  unsessioned s clients (ground (arith, h)),
)

pub ClientsDistinct-Apart :
    (clients : List ClientInfo) → ClientsDistinct clients → Apart same_client clients
ClientsDistinct-Apart [] h = tt
ClientsDistinct-Apart (c ∷ clients) h =
    (unsessioned c.session clients (h.0), ClientsDistinct-Apart clients (h.1))

active_clients-All :
    (P : ClientInfo → Type 0) (now : ℤ) (age : ℕ) (clients : List ClientInfo)
    → All P clients
    → All P (active_clients now age clients)
unfolding active_clients
active_clients-All P now age [] h = tt
active_clients-All P now age (c ∷ clients) h = elim (Bool-cases (is_recent now age c.activity)) [
  | inl e ↦ rw e (h.0, active_clients-All P now age clients (h.1))
  | inr e ↦ rw e (active_clients-All P now age clients (h.1))
]

pub active_clients-Apart :
    (now : ℤ) (age : ℕ) (clients : List ClientInfo)
    → Apart same_client clients
    → Apart same_client (active_clients now age clients)
unfolding active_clients
active_clients-Apart now age [] h = tt
active_clients-Apart now age (c ∷ clients) h = elim (Bool-cases (is_recent now age c.activity)) [
  | inl e ↦ rw e (
    active_clients-All (λ d. same_client c d ≡ false) now age clients (h.0),
    active_clients-Apart now age clients (h.1),
  )
  | inr e ↦ rw e (active_clients-Apart now age clients (h.1))
]

client_sessions-All :
    (s : Text) (clients : List ClientInfo)
    → All (λ c. text_eq s c.session ≡ false) clients
    → All (λ p. same_planned (s, false) p ≡ false) (client_sessions clients)
unfolding client_sessions
client_sessions-All s [] h = tt
client_sessions-All s (c ∷ clients) h = (h.0, client_sessions-All s clients (h.1))

pub client_sessions-Apart :
    (clients : List ClientInfo)
    → Apart same_client clients
    → Apart same_planned (client_sessions clients)
unfolding client_sessions
client_sessions-Apart [] h = tt
client_sessions-Apart (c ∷ clients) h =
    (client_sessions-All c.session clients (h.0), client_sessions-Apart clients (h.1))

pub add_sessions-Apart :
    (more : List Text) (plan : List (Text × Bool))
    → Apart same_planned plan
    → Apart same_planned (add_sessions plan more)
unfolding add_sessions
add_sessions-Apart [] plan h = h
add_sessions-Apart (s ∷ more) plan h =
    elim (Bool-cases (any (λ (name, output). text_eq name s) plan)) [
      | inl e ↦ rw e (add_sessions-Apart more plan h)
      | inr e ↦ rw e (
          add_sessions-Apart more (plan ++ ((s, true) ∷ []))
            (Apart-snoc same_planned plan (s, true) h e))
    ]

-- ===== src/Server/Login.antt =====
-- internal/server/handler.go over internal/webhook/webhook.go: who is turned away for good.
use sidecartunnel.Base.{ℕ, ◌≤◌, ◌<◌, ◌≡◌, refl, ◌⊎◌, Bool, true, false, Option, Bytes, err}
use sidecartunnel.Conn.Command.{unauthorized, unavailable}
use sidecartunnel.Server.Admission.{Admission}
use sidecartunnel.Server.Front.{Front, authorize, authorize_once}
use sidecartunnel.Glob.{GrantSet}
use sidecartunnel.Webhook.Answer.{Fault, Outcome, authorized, refused}
use sidecartunnel.Webhook.Answer

-- There is a limit on a user's connections, and the user has as many.
abbrev pub IsFull : Admission → Bytes → Type 0
IsFull a user = (0 < a.limit) × (a.limit ≤ a.users user)

abbrev Turns : Front → ℕ → Outcome → Type 0
Turns f c o = (authorize f c o).1 ≡ err unauthorized

abbrev Refuses : Front → Outcome → Type 0
Refuses f o =
    ((status : ℕ) × (fault : Option Fault) × (o ≡ refused status fault))
    ⊎ ((user : Bytes) × (grants : GrantSet) × (expires_in : ℕ) × (o
          ≡ authorized user grants expires_in)
        × IsFull f.admission user)

-- An authorizer that has answered answers no more: the webhook's answer does not matter, and nothing changes.
pub authorize_once-again :
    (f : Front) (held : Bool) (c : ℕ) (o o' : Outcome)
    → let (f', left, res) = authorize_once f held c o in
      authorize_once f' left c o' ≡ (f', false, err unavailable)
unfolding authorize_once
authorize_once-again f true c o o' = refl
authorize_once-again f false c o o' = refl

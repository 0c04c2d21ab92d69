-- ===== src/Tests/Invites.antt =====
-- Examples of invites.
use yunova.Base.{◌≡◌, refl, some, none, [], ◌∷◌}
use yunova.Base.Text.{codes}
use yunova.Schema.{User}
use yunova.Db.{Conn}
use yunova.Invites.{count_unclaimed, redeem}
use yunova.Invites.Claims.{IsClaimed, redeem_again}
use yunova.Tests.Data.{order, tables, first_row, shaky}

abbrev inviter : User
inviter = record {
  id = 1;
  username = "ann";
  password_hash = "";
  invite_code = some (codes "AB3");
  invited_by = none;
}

abbrev invitee : User
invitee = record {
  id = 2;
  username = "bob";
  password_hash = "";
  invite_code = none;
  invited_by = some 1;
}

abbrev conn : Conn
conn = record { tables = record (tables order) { users = inviter ∷ invitee ∷ [] }; tick = 0 }

invitee_claimed : count_unclaimed 2 (inviter ∷ invitee ∷ []) ≡ 0
unfolding count_unclaimed
invitee_claimed = refl

redeem_again_example :
    IsClaimed 2
      (tables order).balances
      (first_row ∷ [])
      (redeem 2 "nova" (codes "AB3") shaky conn).1.tables
redeem_again_example =
    redeem_again 2 "nova" (codes "AB3") shaky (tables order).balances (first_row ∷ [])
      (λ n t h. record {
        none_unclaimed = h.none_unclaimed;
        balances = h.balances;
        ledger = h.ledger;
      })
      conn (record { none_unclaimed = invitee_claimed; balances = refl; ledger = refl })

-- ===== src/Tests/Tokens.antt =====
-- Examples on invite tokens.
use null_key.Base.{◌≡◌, refl, true, some}
use null_key.Value.{undefined, truthy, value_discrete}
use null_key.JsMap.{get}
use null_key.Manager.{bind_invite_token, verify_invite_token, unused}
use null_key.Manager.Tokens.{token_owner, bind_undefined}
use null_key.Tests.{one_room, lobby, ticket, bob}

ticket_is_free : token_owner lobby ticket one_room ≡ some unused
unfolding token_owner get value_discrete null_key.Manager.add_room null_key.Manager.new_manager
    truthy null_key.JsMap.set
ticket_is_free = refl

bind_undefined_example :
    let (n, bound) = bind_invite_token lobby ticket undefined one_room in
    (bound ≡ true)
    × (verify_invite_token lobby ticket bob n ≡ true)
    × (token_owner lobby ticket n ≡ token_owner lobby ticket one_room)
bind_undefined_example = bind_undefined lobby ticket bob lobby ticket one_room ticket_is_free

-- ===== src/Server/Connections.antt =====
-- The counts are those of the connections that are open, and within the limit.
use null_key.Base.{
  ℕ, suc, ◌==◌, ◌+◌, ◌-◌, ◌≤◌, ◌≡◌, true, List, [], ◌∷◌, arith, refl, if◌then◌else◌,
}
use null_key.Value.{Value, ◌===◌}
use null_key.JsMap.{Map, get}
use null_key.JsMap.Laws.{get-set, get-delete}
use null_key.Server.{
  connections_of, add_connection, remove_connection, Server, Gate, new_server, verify_client,
  on_connection, on_close, upgrade, remove_stale_buckets,
}

connections_of-add_connection :
    (ip j : Value) (m : Map ℕ)
    → connections_of j (add_connection ip m)
      ≡ (if ip === j then connections_of ip m + 1 else connections_of j m)
unfolding connections_of add_connection
connections_of-add_connection ip j m = ground (arith, get-set ip j (connections_of ip m + 1) m)

connections_of-remove_connection :
    (ip j : Value) (m : Map ℕ)
    → connections_of j (remove_connection ip m)
      ≡ (if ip === j then connections_of ip m - 1 else connections_of j m)
unfolding connections_of remove_connection
connections_of-remove_connection ip j m =
    ground (arith, get-set ip j (connections_of ip m - 1) m, get-delete ip j m)

-- An upgrade that passes adds a connection of its address, any other none.
connections_of-upgrade :
    (g : Gate) (now : ℕ) (origin : Value) (ip j : Value) (s : Server)
    → connections_of j (upgrade g now origin ip s).0.connection_counts ≡ (
        if (upgrade g now origin ip s).1
        then connections_of j (add_connection ip s.connection_counts)
        else connections_of j s.connection_counts)
unfolding upgrade verify_client on_connection
connections_of-upgrade g now origin ip j s = ground arith

upgrade_le :
    (g : Gate) (now : ℕ) (origin : Value) (ip : Value) (s : Server)
    → (upgrade g now origin ip s).1 ≡ true
    → connections_of ip s.connection_counts + 1 ≤ g.config.rate_limit_max_connections_per_ip
unfolding upgrade verify_client on_connection
upgrade_le g now origin ip s h = ground arith

-- How often an address is in a list, and the list without one entry of it.
pub occurrences : Value → List Value → ℕ
occurrences ip [] = 0
occurrences ip (j ∷ js) = if j === ip then suc (occurrences ip js) else occurrences ip js

pub without_one : Value → List Value → List Value
without_one ip [] = []
without_one ip (j ∷ js) = let rest = without_one ip js in if j === ip then js else j ∷ rest

occurrences-without_one :
    (ip j : Value) (js : List Value)
    → occurrences j (without_one ip js)
      ≡ (if ip === j then occurrences ip js - 1 else occurrences j js)
unfolding occurrences without_one
occurrences-without_one ip j [] = ground arith
occurrences-without_one ip j (k ∷ js) = ground (arith, occurrences-without_one ip j js)

-- What happens to the server: an upgrade request, a socket of an address that closes, the timer.
pub data Act : Type 0 where
  requests : ℕ → Value → Value → Act
  closes : Value → Act
  sweeps : ℕ → Act

-- The addresses of the connections that are open, and the server. A close without an open connection
-- of the address does not happen.
abbrev pub Live : Type 0
Live = List Value × Server

pub act : Gate → Act → Live → Live
act g (requests now origin ip) (live, s) =
    let (t, passed) = upgrade g now origin ip s in (if passed then ip ∷ live else live, t)
act g (closes ip) (live, s) =
    if occurrences ip live == 0 then (live, s) else (without_one ip live, on_close ip s)
act g (sweeps now) (live, s) = (live, remove_stale_buckets g.config now s)

pub act_all : Gate → List Act → Live → Live
act_all g [] l = l
act_all g (a ∷ acts) l = act_all g acts (act g a l)

-- The counts are those of the open connections, and within the limit.
pub record IsLive (g : Gate) (l : Live) : Type 0 where
  pub exact : (ip : Value) → connections_of ip l.1.connection_counts ≡ occurrences ip l.0
  pub bounded : (ip : Value) → occurrences ip l.0 ≤ g.config.rate_limit_max_connections_per_ip

act-IsLive : (g : Gate) (a : Act) (l : Live) → IsLive g l → IsLive g (act g a l)
unfolding act remove_stale_buckets on_close occurrences
act-IsLive g (requests now origin ip) (live, s) v = record {
  exact = λ j. ground (
    arith,
    connections_of-upgrade g now origin ip j s,
    connections_of-add_connection ip j s.connection_counts,
    v.exact j,
    v.exact ip,
  );
  bounded = λ j. ground (arith, upgrade_le g now origin ip s, v.exact ip, v.bounded j);
}
act-IsLive g (closes ip) (live, s) v = record {
  exact = λ j. ground (
    arith,
    connections_of-remove_connection ip j s.connection_counts,
    occurrences-without_one ip j live,
    v.exact j,
    v.exact ip,
  );
  bounded = λ j. ground (arith, occurrences-without_one ip j live, v.bounded j, v.bounded ip);
}
act-IsLive g (sweeps now) (live, s) v = record { exact = v.exact; bounded = v.bounded }

act_all-IsLive : (g : Gate) (acts : List Act) (l : Live) → IsLive g l → IsLive g (act_all g acts l)
unfolding act_all
act_all-IsLive g [] l v = v
act_all-IsLive g (a ∷ acts) l v = act_all-IsLive g acts (act g a l) (act-IsLive g a l v)

-- From the start, whatever upgrade requests come, pass or fail, and whichever of the open connections
-- close: each address's count is the number of its open connections, and that is within the limit.
pub new_server-IsLive : (g : Gate) (acts : List Act) → IsLive g (act_all g acts ([], new_server))
unfolding new_server connections_of occurrences get
new_server-IsLive g acts =
    act_all-IsLive g acts ([], new_server)
      (record { exact = λ ip. refl; bounded = λ ip. omega arith })

-- ===== src/Node/Main.antt =====
-- The `main` of node/main.cpp, with the constructor of the class `Node`.
pub mod Outcomes
use isc_challenge_without_bo.Prelude.{
  ℕ, Bool, true, List, [], ◌∷◌, ◌++◌, Option, none, some, Exception, Result, ok, throw, ◌>>=◌, ℤ,
  pos,
}
use isc_challenge_without_bo.Text.{Bytes, codes}
use isc_challenge_without_bo.Text.Stoi.{stoi}
use isc_challenge_without_bo.Text.Decimal.{print}
use isc_challenge_without_bo.Winsock.{Os}
use isc_challenge_without_bo.Logger.{
  Spdlog, Level, info, err, critical, initialize, log_console, default_file_path,
  default_max_file_size, default_max_files,
}
use isc_challenge_without_bo.Node.TcpSocket.{TcpSocket, new_tcp_socket, destroy}
use isc_challenge_without_bo.Node.Client.{Node, Pass, returned, thrown, out_of_fuel, start}

-- How the program ends, or how far it is: the code of `main`; a null pointer that is followed; a
-- node between two passes of its loop; fuel that ran out.
pub data Ended (W : Type 0) : Type 0 where
  exited : ℤ → W → Ended W
  crashed : Ended W
  running : TcpSocket W → Ended W
  unfinished : Ended W

-- The constructor of `Node`: its fields, and the socket that it makes.
unfoldable pub new_node :
    {W : Type 0} → ℤ → ℤ → Bool → Bytes → ℤ → Bytes → ℤ → W → Node × TcpSocket W
unfolding new_tcp_socket
new_node nodeid dstid initiate_messaging router_ip router_port buffer socket w = (
  record { id = nodeid; dst_id = dstid; initiate_messaging = initiate_messaging },
  new_tcp_socket router_ip router_port buffer socket w,
)

abbrev pub usage : Bytes
usage = codes "Insufficient Argument.\nUsage: ISC-Node.exe <id> <dstid> <router_ip> <router_port>"

-- The three numbers among the arguments, in the order in which they are read.
pub record Numbers : Type 0 where
  pub id : ℤ
  pub dstid : ℤ
  pub router_port : ℤ

abbrev pub numbers : Bytes → Bytes → Bytes → Result Numbers
numbers id dstid router_port = do
  id ← stoi id
  dstid ← stoi dstid
  router_port ← stoi router_port
  ok (record { id = id; dstid = dstid; router_port = router_port })

-- `what` is the text of an exception; the buffer and the field `_socket` start with any value; `passes`
-- and `fuel` bound the loops of `Node::start`.
module _ (os : Os) (spdlog : Spdlog) (what : Exception → Bytes) (buffer : Bytes) (socket : ℤ)
    (passes fuel : ℕ) where
  abbrev pub with_line : Option spdlog.World → (spdlog.World → Ended os.World) → Ended os.World
  with_line none next = crashed
  with_line (some v) next = next v

  abbrev pub logged :
      Level → Bytes → (spdlog.World → Ended os.World) → spdlog.World → Ended os.World
  logged level line next v = with_line (log_console spdlog level line v) next

  -- The handler of the exceptions.
  abbrev pub caught : Exception → os.World → spdlog.World → Ended os.World
  caught e w = logged err (codes "Error: " ++ what e) λ v. exited (pos 0) w

  -- Behind `node.start()`. An exception destroys the node before it is caught.
  abbrev pub ended : Pass os.World → spdlog.World → Ended os.World
  ended (returned code st) v = running st
  ended (thrown e st) v = caught e (destroy os st) v
  ended out_of_fuel v = unfinished

  abbrev pub announced :
      Numbers → Bytes → (spdlog.World → Ended os.World) → spdlog.World → Ended os.World
  announced n router_ip next = logged info (codes "Node " ++ (print n.id ++ codes " Started.")) (
      logged info (codes "Dst Node is : " ++ print n.dstid) (
        logged info (codes "Router is on " ++ (router_ip ++ (codes ":" ++ print n.router_port)))
          next))

  abbrev pub started : Numbers → Bytes → os.World → Pass os.World
  started n router_ip w =
      let (node, st) = new_node n.id n.dstid true router_ip n.router_port buffer socket w in
      start os node passes fuel st

  -- The `try` block.
  unfoldable pub attempt : Bytes → Result Numbers → os.World → spdlog.World → Ended os.World
  unfolding start new_node
  attempt router_ip (throw e) w v = caught e w v
  attempt router_ip (ok n) w v = announced n router_ip (ended (started n router_ip w)) v

  abbrev pub misuse : os.World → spdlog.World → Ended os.World
  misuse w = logged critical usage λ v. exited (pos 1) w

  unfoldable pub run_main : List Bytes → os.World → spdlog.World → Ended os.World
  unfolding attempt
  run_main (program ∷ id ∷ dstid ∷ router_ip ∷ router_port ∷ []) w v =
      attempt router_ip (numbers id dstid router_port) w v
  run_main _ w v = misuse w v

  unfoldable pub main : List Bytes → os.World → spdlog.World → Ended os.World
  unfolding run_main
  main argv w v =
      run_main argv w
        (initialize spdlog default_file_path default_max_file_size default_max_files v)

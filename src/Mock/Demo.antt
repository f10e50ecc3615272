-- ===== src/Mock/Demo.antt =====
-- examples/mock/client.go: what the receiving loop shows, and how it ends.
use kupool.Common.{
  ◌==◌, if◌then◌else◌, length, take, Bytes, ℕ, zero, suc, ◌<◌, ◌≡◌, refl, ◌↔◌, true, Option, none,
  some, List, [], ◌∷◌, arith,
}
use kupool.Frame.{Frame, op_binary, op_close}
use kupool.TcpClient.{TcpClient, read}
use kupool.Transport.{tcp_client}
use kupool.Mock.{counted, receive_hellos}

-- The payloads of the binary frames before the first error, a close frame among them.
unfoldable pub binaries : List (Option Frame) → List Bytes
binaries [] = []
binaries (none ∷ xs) = []
binaries (some f ∷ xs) =
    let rest = binaries xs in
    if f.op_code == op_close then [] else if f.op_code == op_binary then f.payload ∷ rest else rest

-- On a client that has a connection the loop shows the first payloads of the binary frames, as many
-- as it waits for; and it ends by its count exactly if there are so many before the first error.
pub receive_hellos-binaries :
    (n : ℕ) (xs : List (Option Frame)) (c : TcpClient)
    → c.has_conn ≡ true
    → let r = receive_hellos tcp_client (suc n) xs c in
      (r.1 ≡ take (suc n) (binaries xs)) × ((r.0 ≡ counted) ↔ (n < length (binaries xs)))
unfolding receive_hellos binaries read
receive_hellos-binaries n [] c h = (refl, (ground arith, ground arith))
receive_hellos-binaries n (none ∷ xs) c h =
    (ground (arith, h), (ground (arith, h), ground (arith, h)))
receive_hellos-binaries zero (some f ∷ xs) c h =
    let rest = receive_hellos-binaries zero xs c h in
    (ground (arith, h, rest.0), (ground (arith, h, rest.1), ground (arith, h, rest.1)))
receive_hellos-binaries (suc n) (some f ∷ xs) c h =
    let rest = receive_hellos-binaries n xs c h in
    let again = receive_hellos-binaries (suc n) xs c h in
    (
      ground (arith, h, rest.0, again.0),
      (ground (arith, h, rest.1, again.1), ground (arith, h, rest.1, again.1)),
    )

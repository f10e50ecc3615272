-- ===== src/TcpServer/Loop.antt =====
-- tcp/server.go: the loop of Start that accepts connections.
use mathlib.Core.List.{append-nil}
use kupool.Common.{
  if◌then◌else◌, ◌≡◌, refl, sym, ap, ◌∙◌, Bool, true, false, List, [], ◌∷◌, ◌++◌, map,
}

-- What a round of the loop meets. `came`: a connection, and whether `quit` has fired when the loop
-- looks. `failed`: an error of `Accept`, and whether the connection that comes with it is nil.
pub data Arrival {ℓ} (A : Type ℓ) : Type ℓ where
  came : A → Bool → Arrival A
  failed : Bool → Arrival A

-- `waiting`: the loop waits in `Accept`. `panicked`: the error branch called Close on nil.
pub data AcceptEnd : Type 0 where
  waiting panicked exited : AcceptEnd

-- The connections that are handed to goroutines of their own, in order, and how the loop ends.
unfoldable pub accept_loop {ℓ} : {A : Type ℓ} → List (Arrival A) → List A × AcceptEnd
accept_loop [] = ([], waiting)
accept_loop (failed nil_conn ∷ rest) = if nil_conn then ([], panicked) else accept_loop rest
accept_loop (came conn fired ∷ rest) =
    let later = accept_loop rest in if fired then (conn ∷ [], exited) else (conn ∷ later.0, later.1)

-- While nothing fires `quit`, every connection is handed on, in order.
accept_loop-came {ℓ} :
    {A : Type ℓ}
    → (conns : List A) (rest : List (Arrival A))
    → accept_loop (map (λ conn. came conn false) conns ++ rest)
      ≡ (conns ++ (accept_loop rest).0, (accept_loop rest).1)
unfolding accept_loop
accept_loop-came [] rest = refl
accept_loop-came (c ∷ conns) rest =
    ap (λ (x : List _ × AcceptEnd). (c ∷ x.0, x.1)) (accept_loop-came conns rest)

-- Connections are handed on, in order, until `Accept` fails without a connection, where the program
-- panics, or until `quit` has fired, which is seen only behind the next connection; that one is still
-- handed on. An error that comes with a connection changes nothing.
accept_loop-ends {ℓ} :
    {A : Type ℓ}
    → (conns : List A) (last : A) (rest : List (Arrival A))
    → let conns_came = map (λ conn. came conn false) conns in
      (accept_loop (conns_came ++ failed true ∷ rest) ≡ (conns, panicked))
      × (accept_loop (conns_came ++ came last true ∷ rest) ≡ (conns ++ last ∷ [], exited))
      × (accept_loop (conns_came ++ failed false ∷ rest) ≡ accept_loop (conns_came ++ rest))
unfolding accept_loop
accept_loop-ends conns last rest = (
  accept_loop-came conns _ ∙ ap (λ cs. (cs, panicked)) (append-nil conns),
  accept_loop-came conns _,
  accept_loop-came conns _ ∙ sym (accept_loop-came conns rest),
)

-- ===== src/Worker/Client.antt =====
-- infrastructure/worker/client/cluster_client.go: the one connection of a worker to the control plane.
use distributed_workflow_orc.Prelude.{
  ◌≡◌, refl, ◌∙◌, sym, ap, subst, Option, none, some, List, [], ◌∷◌, ◌++◌, String, arith,
  Option-cases, inl, inr,
}
use distributed_workflow_orc.Prelude.Results.{Result, ok, err}

pub data ClientError : Type 0 where
  dial_error : (addr : String) → ClientError
  rpc_error close_error : String → ClientError

-- `Conn` stands for `grpc.ClientConn`; `dial` is `grpc.NewClient`, with `none` for its error.
module _ {Conn : Type 0} (dial : String → Option Conn) where
  -- `dialled` and `closed` are the connections that were made and closed, in order.
  pub record ClusterClient : Type 0 where
    pub addr : String
    pub conn : Option Conn
    pub dialled : List Conn
    pub closed : List Conn

  unfoldable pub new_cluster_client : String → ClusterClient
  new_cluster_client addr = record { addr = addr; conn = none; dialled = []; closed = [] }

  unfoldable pub get_or_dial : ClusterClient → Result ClientError Conn × ClusterClient
  get_or_dial c = elim c.conn [
    | some conn ↦ (ok conn, c)
    | none ↦ elim (dial c.addr) [
      | none ↦ (err (dial_error c.addr), c)
      | some conn ↦ (ok conn, record c { conn = some conn; dialled = c.dialled ++ conn ∷ [] })
    ]
  ]

  abbrev answer_on :
      {Out : Type 0} → (Conn → Result String Out) → Result ClientError Conn → Result ClientError Out
  answer_on rpc (err failure) = err failure
  answer_on rpc (ok conn) = elim (rpc conn) [ err text ↦ err (rpc_error text) | ok out ↦ ok out ]

  -- `Register`, `Heartbeat` and `ReportResult`, which differ in the call `rpc` that they make.
  unfoldable pub call_rpc :
      {Out : Type 0}
      → (Conn → Result String Out)
      → ClusterClient
      → Result ClientError Out × ClusterClient
  unfolding get_or_dial
  call_rpc rpc c = let (conn, c') = get_or_dial c in (answer_on rpc conn, c')

  -- `Close`, with the text of the error of closing the connection.
  unfoldable pub close : Option String → ClusterClient → Option ClientError × ClusterClient
  close failure c = elim c.conn [
    | none ↦ (none, c)
    | some conn ↦ (
      elim failure [ none ↦ none | some text ↦ some (close_error text) ],
      record c { conn = none; closed = c.closed ++ conn ∷ [] },
    )
  ]

  -- A way of using the client: a call, whatever it makes of the connection, or a close.
  pub data Use : Type 0 where
    use_call : (Conn → Result String Unit) → Use
    use_close : Option String → Use

  unfoldable pub uses : List Use → ClusterClient → ClusterClient
  unfolding call_rpc close
  uses [] c = c
  uses (use_call rpc ∷ later) c = uses later (call_rpc rpc c).1
  uses (use_close failure ∷ later) c = uses later (close failure c).1

  abbrev pub open_conns : Option Conn → List Conn
  open_conns none = []
  open_conns (some conn) = conn ∷ []

  append_nil : (xs : List Conn) → xs ++ [] ≡ xs
  append_nil [] = refl
  append_nil (x ∷ xs) = ap (λ ys. x ∷ ys) (append_nil xs)

  abbrev IsTight : ClusterClient → Type 0
  IsTight c = c.dialled ≡ c.closed ++ open_conns c.conn

  get_or_dial-IsTight : (c : ClusterClient) → IsTight c → IsTight (get_or_dial c).1
  unfolding get_or_dial
  get_or_dial-IsTight c h = elim (Option-cases c.conn) [
    | inr (conn, e) ↦ subst IsTight (sym (kept conn e)) h
    | inl e ↦ elim (Option-cases (dial c.addr)) [
      | inl refused ↦ subst IsTight (sym (failed e refused)) h
      | inr (conn, made) ↦
          rw (e, get_or_dial)
            (rw made (
              ap (λ xs. xs ++ conn ∷ [])
                (h ∙ ap (λ o. c.closed ++ open_conns o) e ∙ append_nil c.closed)))
    ]
  ]
    where
      kept : (conn : Conn) → c.conn ≡ some conn → (get_or_dial c).1 ≡ c
      kept conn e = ground arith

      failed : c.conn ≡ none → dial c.addr ≡ none → (get_or_dial c).1 ≡ c
      failed e refused = ground arith

  close-IsTight :
      (failure : Option String) (c : ClusterClient) → IsTight c → IsTight (close failure c).1
  unfolding close
  close-IsTight failure c h = elim (Option-cases c.conn) [
    | inl e ↦ subst IsTight (sym (kept e)) h
    | inr (conn, e) ↦
        rw (e, close)
          (h ∙ ap (λ o. c.closed ++ open_conns o) e ∙ sym (append_nil (c.closed ++ conn ∷ [])))
  ]
    where
      kept : c.conn ≡ none → (close failure c).1 ≡ c
      kept e = ground arith

  uses-IsTight : (us : List Use) (c : ClusterClient) → IsTight c → IsTight (uses us c)
  unfolding uses call_rpc
  uses-IsTight [] c h = h
  uses-IsTight (use_call rpc ∷ us) c h =
      uses-IsTight us (call_rpc rpc c).1 (get_or_dial-IsTight c h)
  uses-IsTight (use_close failure ∷ us) c h =
      uses-IsTight us (close failure c).1 (close-IsTight failure c h)

  -- However a client is used, each connection that it made is closed once or is the one that it has:
  -- it has one at most, and leaks none.
  pub uses-no_leak :
      (addr : String) (us : List Use)
      → (uses us (new_cluster_client addr)).dialled
        ≡ (uses us (new_cluster_client addr)).closed
          ++ open_conns (uses us (new_cluster_client addr)).conn
  unfolding new_cluster_client
  uses-no_leak addr us = uses-IsTight us (new_cluster_client addr) refl

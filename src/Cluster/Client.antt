-- ===== src/Cluster/Client.antt =====
-- infrastructure/control-plane/client/worker_client.go: one connection for each worker.
use distributed_workflow_orc.Prelude.{
  ◌≡◌, refl, ◌∙◌, inl, inr, Option, none, some, List, [], ◌∷◌, ◌++◌, String, Map, lookup, insert,
  delete, Option-cases, eq_refl, ap,
}
use distributed_workflow_orc.Prelude.Results.{Result, ok, err, ok_injective, err-ne-ok}
use distributed_workflow_orc.Prelude.Maps.{lookup-insert, lookup-delete}

-- `Conn` stands for `grpc.ClientConn`; `dial` is `grpc.NewClient`, with `none` for its error; and
-- `address_of` the resolver.
module _ {Conn : Type 0} (dial : String → Option Conn) (address_of : String → String) where
  pub record WorkerClient : Type 0 where
    pub conns : Map Conn
    pub closed : List Conn

  unfoldable pub get_or_dial : String → WorkerClient → Result String Conn × WorkerClient
  get_or_dial worker_id c = elim (lookup worker_id c.conns) [
    | some conn ↦ (ok conn, c)
    | none ↦ elim (dial (address_of worker_id)) [
      | none ↦ (err worker_id, c)
      | some conn ↦ (ok conn, record c { conns = insert worker_id conn c.conns })
    ]
  ]

  unfoldable pub close_conn : String → WorkerClient → WorkerClient
  close_conn worker_id c = elim (lookup worker_id c.conns) [
    | none ↦ c
    | some conn ↦ record { conns = delete worker_id c.conns; closed = c.closed ++ conn ∷ [] }
  ]

  cached :
      (worker_id : String) (conn : Conn) (c : WorkerClient)
      → lookup worker_id c.conns ≡ some conn
      → get_or_dial worker_id c ≡ (ok conn, c)
  unfolding get_or_dial
  cached worker_id conn c found = rw (found, get_or_dial) refl

  lookup-get_or_dial :
      (worker_id : String) (conn : Conn) (c : WorkerClient)
      → (get_or_dial worker_id c).0 ≡ ok conn
      → lookup worker_id (get_or_dial worker_id c).1.conns ≡ some conn
  unfolding get_or_dial
  lookup-get_or_dial worker_id conn c h = elim (Option-cases (lookup worker_id c.conns)) [
    | inr (old, found) ↦
        rw (found, get_or_dial)
          (found ∙ ap some (ok_injective old conn (rw (found, get_or_dial) at h)))
    | inl missing ↦ elim (Option-cases (dial (address_of worker_id))) [
      | inl refused ↦ absurd (err-ne-ok _ conn (rw (missing, refused, get_or_dial) at h))
      | inr (fresh, dialled) ↦
          rw (missing, dialled, get_or_dial)
            (lookup-insert worker_id worker_id fresh c.conns
              ∙ rw (eq_refl worker_id)
                  (ap some (ok_injective fresh conn (rw (missing, dialled, get_or_dial) at h))))
    ]
  ]

  -- A connection that was handed out once is handed out again, with no second dial, and the client
  -- stays as it is.
  pub get_or_dial-caches :
      (worker_id : String) (conn : Conn) (c : WorkerClient)
      → (get_or_dial worker_id c).0 ≡ ok conn
      → get_or_dial worker_id (get_or_dial worker_id c).1 ≡ (ok conn, (get_or_dial worker_id c).1)
  get_or_dial-caches worker_id conn c h =
      cached worker_id conn (get_or_dial worker_id c).1 (lookup-get_or_dial worker_id conn c h)

  -- After `CloseConn` the next call dials the worker's address anew.
  pub close_conn-get_or_dial :
      (worker_id : String) (conn : Conn) (c : WorkerClient)
      → dial (address_of worker_id) ≡ some conn
      → (get_or_dial worker_id (close_conn worker_id c)).0 ≡ ok conn
  unfolding get_or_dial close_conn
  close_conn-get_or_dial worker_id conn c h = elim (Option-cases (lookup worker_id c.conns)) [
    | inl missing ↦ rw (missing, close_conn) (rw (missing, h, get_or_dial) refl)
    | inr (old, found) ↦
        rw (found, close_conn)
          (rw (lookup-delete worker_id worker_id c.conns, eq_refl worker_id, h, get_or_dial) refl)
  ]

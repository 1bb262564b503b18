-- ===== src/Program/Sockets.antt =====
-- What the start and the end of the IPC server leave behind.
use go_ldlm.Program.Os.{System, IsSystem, is_same}
use go_ldlm.Program.{
  IpcCloser, disabled, closes_socket, socket_file, ipc_run, ipc_listened, ipc_close, removed,
}
use go_ldlm.Errors.{Error}
use go_ldlm.Common.{
  returns, String, ◌==◌, ◌≡◌, refl, sym, ap, ◌∙◌, ◌⊎◌, inl, inr, Bool, true, false, not, ◌&&◌, ◌||◌,
  Option, none, some, if◌then◌else◌, Bool-cases, arith, eq_iff, eq_refl,
}

pub same_self : (n a : String) → is_same n a n a ≡ true
same_self n a = rw (eq_refl n, eq_refl a) refl

module _ (sys : System) (good : IsSystem sys) where
  open sys use {World}
  open good use {listening}

  -- The same addresses are listened on, and the same paths exist.
  pub record Alike (w w' : World) : Type 0 where
    pub same_listeners : (m b : String) → listening m b w' ≡ listening m b w
    pub same_files : (p : String) → sys.exists p w' ≡ sys.exists p w

  pub equal-Alike : (w w' : World) → w' ≡ w → Alike w w'
  equal-Alike w w' e = record {
    same_listeners = λ m b. ap (listening m b) e;
    same_files = λ p. ap (sys.exists p) e;
  }

  pub then-Alike : (u v w : World) → Alike u v → Alike v w → Alike u w
  then-Alike u v w a b = record {
    same_listeners = λ m x. b.same_listeners m x ∙ a.same_listeners m x;
    same_files = λ p. b.same_files p ∙ a.same_files p;
  }

  -- A listener that is closed again leaves the listeners as they were.
  pub opened_closed :
      (n a : String) (w w' : World)
      → (sys.listen n a w).0 ≡ none
      → ((m b : String) → listening m b w' ≡ listening m b (sys.listen n a w).1)
      → (m b : String) → listening m b (sys.close_listener n a w').1 ≡ listening m b w
  opened_closed n a w w' ok same m b =
      good.close_frees n a w' m b
      ∙ ap (λ x. not (is_same n a m b) && x) (same m b ∙ good.listen_takes n a w ok m b)
      ∙ either (is_same n a m b) (listening m b w) (good.listen_free n a w ok m b)
    where
      either : (c l : Bool) → (c ≡ true → l ≡ false) → (not c && (c || l)) ≡ l
      either true l h = sym (h refl)
      either false l h = refl

  -- The same on TCP, where no file changes.
  pub tcp_closed-Alike :
      (a : String) (w w' : World)
      → (sys.listen "tcp" a w).0 ≡ none
      → Alike (sys.listen "tcp" a w).1 w'
      → Alike w (sys.close_listener "tcp" a w').1
  tcp_closed-Alike a w w' ok same = record {
    same_listeners = opened_closed "tcp" a w w' ok same.same_listeners;
    same_files = λ p. good.tcp_close_files a w' p ∙ same.same_files p ∙ good.tcp_listen_files a w p;
  }

  -- A path that did not exist, and that listens now.
  abbrev pub IsNewSocket : World → World → IpcCloser → Type 0
  IsNewSocket w w' disabled = Unit
  IsNewSocket w w' (closes_socket path) =
      (sys.exists path w ≡ false) × (listening "unix" path w' ≡ true)

  -- What a start of the IPC server leaves: an error, and the system as it was; or, but where it is
  -- disabled, a listener on a path that did not exist. Where its function comes back, in a system
  -- that is the same by then, the system is as it was before the start.
  abbrev pub IpcLeaves : World → (Error ⊎ IpcCloser) × World → Type 0
  IpcLeaves w (inl e, w') = w' ≡ w
  IpcLeaves w (inr c, w') =
      IsNewSocket w w' c
      × ((later : World)
          → Alike w' later
          → (ipc_close sys c later).0 ≡ returns tt
          → Alike w (ipc_close sys c later).1)

  -- What is left of the socket file.
  file_lem :
      (path : String) (w w1 : World)
      → sys.exists path w ≡ false
      → ((p : String) → (path == p) ≡ false → sys.exists p w1 ≡ sys.exists p w)
      → (b : Bool) → sys.exists path w1 ≡ b
      → let r = if b then removed sys (sys.remove path w1) else (returns tt, w1) in
        r.0 ≡ returns tt
        → ((m a : String) → listening m a r.1 ≡ listening m a w1)
          × ((p : String) → sys.exists p r.1 ≡ sys.exists p w)
  unfolding removed
  file_lem path w w1 absent same false e h = (
    λ m a. refl,
    λ p. elim (Bool-cases (path == p)) [
      | inl y ↦
          ap (λ q. sys.exists q w1) (sym ((eq_iff path p).0 y))
          ∙ e
          ∙ sym absent
          ∙ ap (λ q. sys.exists q w) ((eq_iff path p).0 y)
      | inr d ↦ same p d
    ],
  )
  file_lem path w w1 absent same true e h = after (sys.remove path w1).0 refl h
    where
      w2 : World
      w2 = (sys.remove path w1).1

      after :
          (o : Option Error)
          → (sys.remove path w1).0 ≡ o
          → (removed sys (o, w2)).0 ≡ returns tt
          → ((m a : String) → listening m a (removed sys (o, w2)).1 ≡ listening m a w1)
            × ((p : String) → sys.exists p (removed sys (o, w2)).1 ≡ sys.exists p w)
      after none g h = (
        λ m a. good.remove_listening path w1 m a,
        λ p. elim (Bool-cases (path == p)) [
          | inl y ↦
              ap (λ q. sys.exists q w2) (sym ((eq_iff path p).0 y))
              ∙ good.remove_gone path w1 g
              ∙ sym absent
              ∙ ap (λ q. sys.exists q w) ((eq_iff path p).0 y)
          | inr d ↦ good.remove_files path w1 p d ∙ same p d
        ],
      )
      after (some x) g h = absurd (ground (arith, h))

  -- What the IPC object serves once ipc.Run is done: the new server, unless it was disabled or found
  -- a file at its path.
  abbrev pub Serves : {S : Type 0} → S → String → Option S → World → Option S → Type 0
  Serves lsrv path srv w after =
      after ≡ (if path == "" then srv else if sys.exists path w then srv else some lsrv)

  -- ipc.Run, on every branch: where it returns an error, what listens and which files exist is as
  -- before. Where it starts, it does so on a path that did not exist, unless it is disabled; and if
  -- the function that it returns comes back, in a system that is the same by then, what listens is
  -- what listened before the start, and every path exists that existed before, and no other. The IPC
  -- object serves the new server from then on, also where Listen fails, unless ipc.Run was disabled
  -- or found a file at its path.
  pub ipc_run-IpcLeaves :
      {S : Type 0} (lsrv : S) (file : String) (srv : Option S) (w : World)
      → let r = ipc_run sys lsrv file (srv, w) in
        IpcLeaves w (r.0, r.1.1) × Serves lsrv (socket_file sys file) srv w r.1.0
  unfolding ipc_run ipc_listened ipc_close
  ipc_run-IpcLeaves lsrv file srv w = elim (Bool-cases (path == "")) [
    | inl y ↦ rw y ((tt, λ later same _. same), refl)
    | inr n ↦ elim (Bool-cases (sys.exists path w)) [
      | inl y ↦ rw (n, y) (refl, refl)
      | inr absent ↦ rw (n, absent) (answered absent (sys.listen "unix" path w).0 refl)
    ]
  ]
    where
      path : String
      path = socket_file sys file

      w1 : World
      w1 = (sys.listen "unix" path w).1

      answered :
          sys.exists path w ≡ false
          → (o : Option Error) → (sys.listen "unix" path w).0 ≡ o
          → let r = ipc_listened sys path (some lsrv) (o, w1) in
            IpcLeaves w (r.0, r.1.1) × (r.1.0 ≡ some lsrv)
      answered absent (some e) h = (good.listen_fails "unix" path w e h, refl)
      answered absent none h = (
        (
          (
            absent,
            good.listen_takes "unix" path w h "unix" path
                ∙ ap (λ x. x || listening "unix" path w) (same_self "unix" path),
          ),
          λ later same ended.
              let (ls, fs) =
                file_lem path w (sys.close_listener "unix" path later).1 absent
                  (λ p d.
                    good.close_files path later p d
                    ∙ same.same_files p
                    ∙ good.listen_files path w p d)
                  _ refl ended in
              record {
                same_listeners =
                    λ m b. ls m b ∙ opened_closed "unix" path w later h same.same_listeners m b;
                same_files = fs;
              },
        ),
        refl,
      )

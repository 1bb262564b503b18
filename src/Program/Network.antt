-- ===== src/Program/Network.antt =====
-- What the start and the end of the network services leave behind.
use go_ldlm.Program.Sockets.{Alike, equal-Alike, tcp_closed-Alike, same_self}
use go_ldlm.Program.Os.{System, IsSystem}
use go_ldlm.Program.{
  NetCloser, closes_rest_and_grpc, NetConfig, grpc_run, grpc_listened, rest_run, net_run,
  grpc_started, rest_started, net_close, rest_serve, rest_listened,
}
use go_ldlm.Errors.{Error}
use go_ldlm.Security.{TlsConfig, Crypto, get_tls_config}
use go_ldlm.Common.{
  returns, String, ◌==◌, ◌≡◌, refl, sym, ap, ◌∙◌, ◌⊎◌, inl, inr, Bool, true, false, ◌||◌, Option,
  none, some, Bool-cases, arith,
}
use mathlib.Core.Path.{subst}

module _ (sys : System) (good : IsSystem sys) where
  open sys use {World}
  open good use {listening}

  -- What a start of the network services leaves: an error, and the system as it was; or a function
  -- that closes all that was opened and nothing else, once the goroutine of the REST server has
  -- listened, or has come too late to.
  abbrev pub NetLeaves : Crypto → World → (Error ⊎ NetCloser) × World → Type 0
  NetLeaves k w (inl e, w') = Alike sys good w w'
  NetLeaves k w (inr c, w') =
      (late served : Bool)
      → (rest_serve sys k c late w').0 ≡ returns served
      → Alike sys good w (net_close sys k c served (rest_serve sys k c late w').1)

  -- net.Run where the TLS settings are accepted, with a REST server or without: what listens
  -- and which files exist is as before, when it fails and when the services that it started are
  -- closed again, after the goroutine of the REST server has listened or has come too late to.
  pub net_run-NetLeaves :
      (k : Crypto) (registered : Option Error) (conf : NetConfig) (w : World)
      (tls : Option (TlsConfig k.Cert k.Pool))
      → get_tls_config k conf.security ≡ inr tls
      → NetLeaves k w (net_run sys k registered conf w)
  unfolding net_run grpc_run rest_run grpc_listened grpc_started rest_started rest_serve net_close
      rest_listened
  net_run-NetLeaves k registered conf w tls fine = grpc_answered (sys.listen "tcp" g w).0 refl
    where
      g : String
      g = conf.grpc_listen_address

      r : String
      r = conf.rest_listen_address

      w1 : World
      w1 = (sys.listen "tcp" g w).1

      self : (v : World) → Alike sys good v v
      self v = equal-Alike sys good v v refl

      rest_open :
          (sys.listen "tcp" g w).0 ≡ none
          → (o : Option Error) → (sys.listen "tcp" r w1).0 ≡ o
          → (served : Bool)
          → (rest_listened sys k (o, (sys.listen "tcp" r w1).1)).0 ≡ returns served
          → Alike sys good w (
              net_close sys k
                (closes_rest_and_grpc r g)
                served
                (rest_listened sys k (o, (sys.listen "tcp" r w1).1)).1)
      rest_open h (some e) f served q = absurd (ground (arith, q))
      rest_open h none f false q = absurd (ground (arith, q))
      rest_open h none f true q =
          tcp_closed-Alike sys good g w _ h (tcp_closed-Alike sys good r w1 _ f (self _))

      rest_answered :
          (sys.listen "tcp" g w).0 ≡ none
          → (o : Option Error)
          → NetLeaves k w (rest_started sys k g (rest_run sys k o r conf.security) w1)
      rest_answered h (some e) = tcp_closed-Alike sys good g w w1 h (self w1)
      rest_answered h none =
          subst (λ x. NetLeaves k w (rest_started sys k g x w1)) (sym accepted) closed
        where
          accepted : rest_run sys k none r conf.security ≡ inr r
          accepted = rw (fine, rest_run) refl

          closed :
              (late served : Bool)
              → (rest_serve sys k (closes_rest_and_grpc r g) late w1).0 ≡ returns served
              → Alike sys good w (
                  net_close sys k
                    (closes_rest_and_grpc r g)
                    served
                    (rest_serve sys k (closes_rest_and_grpc r g) late w1).1)
          closed true false q = tcp_closed-Alike sys good g w w1 h (self w1)
          closed true true q = absurd (ground (arith, q))
          closed false served q = rest_open h (sys.listen "tcp" r w1).0 refl served q

      taken : grpc_listened sys k g conf.security (none, w1) ≡ (inr g, w1)
      taken = rw (fine, grpc_listened) refl

      grpc_answered :
          (o : Option Error)
          → (sys.listen "tcp" g w).0 ≡ o
          → NetLeaves k w
              (grpc_started sys k registered conf (grpc_listened sys k g conf.security (o, w1)))
      grpc_answered (some e) h = equal-Alike sys good w w1 (good.listen_fails "tcp" g w e h)
      grpc_answered none h =
          subst (λ x. NetLeaves k w (grpc_started sys k registered conf x)) (sym taken)
            (elim (Bool-cases (r == "")) [
              | inl y ↦ rw y (λ late served _. tcp_closed-Alike sys good g w w1 h (self w1))
              | inr n ↦ rw n (rest_answered h registered)
            ])

  abbrev Leaked :
      Crypto → Option Error → NetConfig → World → Error → (Error ⊎ String) × World → Type 0
  Leaked k registered conf w e x =
      let r = grpc_started sys k registered conf x in
      (r.0 ≡ inl e)
      × (listening "tcp" conf.grpc_listen_address w ≡ false)
      × (listening "tcp" conf.grpc_listen_address r.1 ≡ true)

  -- net.Run where the TLS settings are refused: it returns the error, and the listener that it
  -- opened for gRPC is still there.
  pub net_run_leaks :
      (k : Crypto) (registered : Option Error) (conf : NetConfig) (w : World) (e : Error)
      → (sys.listen "tcp" conf.grpc_listen_address w).0 ≡ none
      → get_tls_config k conf.security ≡ inl e
      → let r = net_run sys k registered conf w in
        (r.0 ≡ inl e)
        × (listening "tcp" conf.grpc_listen_address w ≡ false)
        × (listening "tcp" conf.grpc_listen_address r.1 ≡ true)
  unfolding net_run grpc_run grpc_listened grpc_started
  net_run_leaks k registered conf w e ok bad =
      refused (sys.listen "tcp" conf.grpc_listen_address w).0 ok
    where
      g : String
      g = conf.grpc_listen_address

      w1 : World
      w1 = (sys.listen "tcp" g w).1

      left : grpc_listened sys k g conf.security (none, w1) ≡ (inl e, w1)
      left = rw (bad, grpc_listened) refl

      refused :
          (o : Option Error)
          → o ≡ none
          → Leaked k registered conf w e (grpc_listened sys k g conf.security (o, w1))
      refused (some x) h = absurd (ground (arith, h))
      refused none h = subst (Leaked k registered conf w e) (sym left) (
        refl,
        good.listen_free "tcp" g w ok "tcp" g (same_self "tcp" g),
        good.listen_takes "tcp" g w ok "tcp" g
            ∙ ap (λ x. x || listening "tcp" g w) (same_self "tcp" g),
      )

-- ===== src/TcpServer/Session/Imei.antt =====
-- simple-tcp-server: the IMEI that `handleConnection` accepts.
use teltonika.Prelude.{
  ℕ, ◌<◌, arith, inl, inr, Bool, true, false, Option, none, some, List, length, take, ltb, ◌==◌,
  Bool-cases, if◌then◌else◌, Result, ok, err, panic,
}
use teltonika.IoElements.{Text}
use teltonika.Transport.Stream.{is_error}
use teltonika.TcpServer.Session.{
  Conn, on_success, filled, checked_imei, read_text, read_length, read_imei,
}

module _ {S : Type 0} ⦃cn : Conn S⦄ where
  -- An IMEI that was accepted is not empty.
  abbrev pub IsNamed : Option (Text × S) → Type 0
  IsNamed none = Unit {0}
  IsNamed (some (imei, s)) = 0 < length imei

  text-IsNamed :
      (failed short : Bool) (imei : Text) (s : S)
      → IsNamed (
          if failed
          then none
          else if short
          then none
          else if length imei == 0
          then none
          else some (imei, s))
  text-IsNamed true short imei s = tt
  text-IsNamed false true imei s = tt
  text-IsNamed false false imei s = elim (Bool-cases (length imei == 0)) [
    | inl blank ↦ rw blank tt
    | inr named ↦ rw named (ground arith)
  ]

  on_success-IsNamed :
      (o : Option S) (k : S → Option (Text × S))
      → ((s : S) → IsNamed (k s))
      → IsNamed (on_success o none k)
  on_success-IsNamed none k h = tt
  on_success-IsNamed (some s) k h = h s

  if-IsNamed : (b : Bool) (o : Option (Text × S)) → IsNamed o → IsNamed (if b then none else o)
  if-IsNamed true o h = tt
  if-IsNamed false o h = h

  read_text-IsNamed : (m : Result ℕ) (buf : List ℕ) (s : S) → IsNamed (read_text m buf s)
  unfolding read_text checked_imei
  read_text-IsNamed panic buf s = tt
  read_text-IsNamed (err e) buf s = tt
  read_text-IsNamed (ok n) buf s = if-IsNamed (ltb (length buf) n) _ (
      on_success-IsNamed (cn.set_read_deadline s) _ λ s'.
        let r = cn.conn_read s' n in
        text-IsNamed (is_error r.error) (ltb (length r.chunk) n)
          (cn.trim_space (take n (filled r.chunk buf))) r.state)

  pub read_imei-IsNamed : (s : S) → IsNamed (read_imei s)
  unfolding read_imei read_length
  read_imei-IsNamed s = on_success-IsNamed (cn.set_read_deadline s) _ λ s'.
      let r = cn.conn_read s' 2 in
      if-IsNamed (is_error r.error) _ (if-IsNamed _ _ (read_text-IsNamed _ _ r.state))

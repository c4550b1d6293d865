-- ===== src/Utils/Address/Bounds.antt =====
-- Which addresses the servers of the nodes listen on.
use sprintframework.Common.{ℕ, ◌+◌, ◌≤◌, ◌≡◌, ◌≢◌, inl, inr, ap, arith}
use sprintframework.Common.{Option, none, some, ◌∷◌, ◌++◌}
use sprintframework.Common.{Bytes, nat_eq, bytes_eq, length, drop, ok, err, IsErr}
use sprintframework.Common.{Option-cases}
use sprintframework.Common.{drop-append_cons}
use sprintframework.Strings.Laws.{Lacks}
use sprintframework.Strconv.{ℤ, pos, negsuc, IsInt, itoa, atoi-itoa}
use sprintframework.Utils.Address.{
  split_host_port, TcpAddr, invalid_address, host_and_port, parse_and_adjust_tcp_addr, adjust,
  listen_text,
}
use sprintframework.Utils.Address.Split.{split-colons, split-bracketed, holds_none, first_byte}

adjust-IsInt : (port : ℕ) (seq : ℤ) → port ≤ 65535 → IsInt seq → IsInt (adjust port seq)
unfolding adjust
adjust-IsInt port (pos n) b h = ground arith
adjust-IsInt port (negsuc n) b h = ground arith

adjust-injective :
    (port : ℕ) (s t : ℤ) → port ≤ 65535 → IsInt s → IsInt t → adjust port s ≡ adjust port t → s ≡ t
unfolding adjust
adjust-injective port (pos m) (pos n) b hs ht e = ground arith
adjust-injective port (pos m) (negsuc n) b hs ht e = ground arith
adjust-injective port (negsuc m) (pos n) b hs ht e = ground arith
adjust-injective port (negsuc m) (negsuc n) b hs ht e = ground arith

-- The text of an address determines the address when the IP is given.
listen_text-injective :
    (ip : Bytes) (p q : ℤ)
    → IsInt p
    → IsInt q
    → listen_text (record { ip = ip; port = p }) ≡ listen_text (record { ip = ip; port = q })
    → p ≡ q
unfolding listen_text
listen_text-injective ip p q hp hq e = ground (
  arith,
  atoi-itoa p hp,
  atoi-itoa q hq,
  drop-append_cons ip b':' (itoa p),
  drop-append_cons ip b':' (itoa q),
  ap (drop (length ip + 1)) e,
)

-- What the address resolves to, before the sequence number is added.
resolved : (Bytes → Option (Bytes × ℕ)) → Bytes → Option (Bytes × ℕ)
resolved resolve address = elim (split_host_port address) [
  | none ↦ none
  | some (host, port) ↦ resolve (host_and_port host port)
]

parse-some :
    (resolve : Bytes → Option (Bytes × ℕ)) (address ip : Bytes) (port : ℕ) (s : ℤ)
    → resolved resolve address ≡ some (ip, port)
    → parse_and_adjust_tcp_addr resolve address s ≡ ok (record { ip = ip; port = adjust port s })
unfolding parse_and_adjust_tcp_addr resolved
parse-some resolve address ip port s e = elim (Option-cases (split_host_port address)) [
  | inl n ↦ ground (arith, n, e)
  | inr ((host, text), q) ↦ ground (arith, q, e)
]

parse-none :
    (resolve : Bytes → Option (Bytes × ℕ)) (address : Bytes) (s : ℤ)
    → resolved resolve address ≡ none
    → IsErr (parse_and_adjust_tcp_addr resolve address s)
unfolding parse_and_adjust_tcp_addr resolved
parse-none resolve address s e = elim (Option-cases (split_host_port address)) [
  | inl n ↦ ground (arith, n, e)
  | inr ((host, text), q) ↦ ground (arith, q, e)
]

resolved-port :
    (resolve : Bytes → Option (Bytes × ℕ)) (address ip : Bytes) (port : ℕ)
    → ((text ip : Bytes) (port : ℕ) → resolve text ≡ some (ip, port) → port ≤ 65535)
    → resolved resolve address ≡ some (ip, port)
    → port ≤ 65535
unfolding resolved
resolved-port resolve address ip port bound e = elim (Option-cases (split_host_port address)) [
  | inl n ↦ ground (arith, n, e)
  | inr ((host, text), q) ↦ ground (arith, q, e, bound (host_and_port host text) ip port)
]

-- Two nodes with different sequence numbers never listen on the same address: for the same
-- configured address, whatever it resolves to, the texts that their servers listen on differ, if
-- the resolver gives ports of at most 65535 and the sequence numbers fit 64 bits.
pub listen_addresses_differ :
    (resolve : Bytes → Option (Bytes × ℕ)) (address : Bytes) (s t : ℤ) (a b : TcpAddr)
    → ((text ip : Bytes) (port : ℕ) → resolve text ≡ some (ip, port) → port ≤ 65535)
    → IsInt s
    → IsInt t
    → s ≢ t
    → parse_and_adjust_tcp_addr resolve address s ≡ ok a
    → parse_and_adjust_tcp_addr resolve address t ≡ ok b
    → listen_text a ≢ listen_text b
listen_addresses_differ resolve address s t a b bound hs ht ne ea eb e =
    elim (Option-cases (resolved resolve address)) [
      | inl n ↦ ground (arith, parse-none resolve address s n, ea)
      | inr ((ip, port), r) ↦ ne (
          adjust-injective port s t (resolved-port resolve address ip port bound r) hs ht (
            listen_text-injective ip (adjust port s) (adjust port t)
              (adjust-IsInt port s (resolved-port resolve address ip port bound r) hs)
              (adjust-IsInt port t (resolved-port resolve address ip port bound r) ht)
              (cc (
                parse-some resolve address ip port s r,
                parse-some resolve address ip port t r,
                ea,
                eb,
                e,
              ))))
    ]

-- A host in brackets that has a colon, as an IPv6 address has, is refused: it is split from its
-- port, joined with it without the brackets, and a resolver that refuses what cannot be split
-- finds no address.
pub bracketed_host_refused :
    (resolve : Bytes → Option (Bytes × ℕ)) (host port : Bytes) (seq : ℤ)
    → ((text : Bytes) → split_host_port text ≡ none → resolve text ≡ none)
    → ¬ Lacks b':' host
    → Lacks b':' port
    → Lacks b'[' (host ++ b']' ∷ b':' ∷ port)
    → Lacks b']' host
    → Lacks b']' port
    → parse_and_adjust_tcp_addr resolve (b'[' ∷ (host ++ b']' ∷ b':' ∷ port)) seq
      ≡ err (invalid_address (host ++ b':' ∷ port))
unfolding parse_and_adjust_tcp_addr
bracketed_host_refused resolve host port seq strict h p l hr pr = ground (
  arith,
  split-bracketed host port hr p (holds_none b'[' (host ++ b']' ∷ b':' ∷ port) l)
      (holds_none b']' (b':' ∷ port) ((λ e. absurd (omega (arith, e))), pr)),
  split-colons host port (first_byte host (b']' ∷ b':' ∷ port) (b':' ∷ port) h l) h p,
  strict (host ++ b':' ∷ port),
)

-- ===== src/Server/Network.antt =====
-- src/server.rs: the address that the server listens on. The interfaces of the host are what the crate
-- get_if_addrs returns.
use spraycc.Base.{
  ℕ, zero, suc, ◌<◌, ◌≡◌, refl, String, Bool, true, false, not, some, List, [], ◌∷◌, Result, ok,
  err, IoError, ◌⊎◌, inl, inr, get_elem?, all, if◌then◌else◌, Bool-cases, arith,
}

pub record Interface : Type 0 where
  pub name : String
  pub ip : String
  pub is_loopback : Bool

abbrev pub loopback : String
loopback = "127.0.0.1"

-- `ifaces.iter().filter(|iface| !iface.is_loopback()).collect()`
unfoldable pub non_loops : List Interface → List Interface
non_loops [] = []
non_loops (iface ∷ ifaces) =
    let rest = non_loops ifaces in if not iface.is_loopback then iface ∷ rest else rest

abbrev first_ip : List Interface → String
first_ip [] = loopback
first_ip (iface ∷ rest) = iface.ip

unfoldable pub get_network_addr : Result IoError (List Interface) → String
unfolding non_loops
get_network_addr (ok ifaces) = first_ip (non_loops ifaces)
get_network_addr (err e) = loopback

earlier :
    (iface : Interface) (ifaces : List Interface) (i : ℕ)
    → iface.is_loopback ≡ true
    → ((j : ℕ) (other : Interface)
        → j < i
        → get_elem? ifaces j ≡ some other
        → other.is_loopback ≡ true)
    → (j : ℕ) (other : Interface) → j < suc i
    → get_elem? (iface ∷ ifaces) j ≡ some other
    → other.is_loopback ≡ true
earlier iface ifaces i inner before zero other lt at_j = ground (arith, inner, at_j)
earlier iface ifaces i inner before (suc j) other lt at_j = before j other (omega (arith, lt)) at_j

-- Of several interfaces the first that is no loopback is taken, and 127.0.0.1 only if there is none.
pub get_network_addr_lem :
    (ifaces : List Interface)
    → ((all (λ (iface : Interface). iface.is_loopback) ifaces ≡ true)
        × (get_network_addr (ok ifaces) ≡ loopback))
      ⊎ ((i : ℕ) × (iface : Interface) × (get_elem? ifaces i ≡ some iface)
          × (iface.is_loopback ≡ false)
          × (get_network_addr (ok ifaces) ≡ iface.ip)
          × ((j : ℕ) (other : Interface)
              → j < i
              → get_elem? ifaces j ≡ some other
              → other.is_loopback ≡ true))
unfolding get_network_addr non_loops
get_network_addr_lem [] = inl (refl, refl)
get_network_addr_lem (iface ∷ ifaces) = elim (Bool-cases iface.is_loopback) [
  | inr outer ↦
      inr (
        0,
        iface,
        refl,
        outer,
        rw outer refl,
        λ j other before at_j. absurd (ground (arith, before)),
      )
  | inl inner ↦ elim (get_network_addr_lem ifaces) [
    | inl (each, addr) ↦ inl (ground (arith, inner, each), rw inner addr)
    | inr (i, first, at_i, outer, addr, before) ↦
        inr (suc i, first, at_i, outer, rw inner addr, earlier iface ifaces i inner before)
  ]
]

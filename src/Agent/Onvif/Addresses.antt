-- ===== src/Agent/Onvif/Addresses.antt =====
-- Which answers of a camera give its addresses.
use akri.Base.{String, List, [], ◌∷◌, Result, ok, err, ◌≡◌, ◌↔◌, refl, ap, ◌∙◌, ◌⊎◌, inl, inr}
use akri.Base.Loops.{ok_injective}
use akri.Agent.Onvif.Queries.{
  Value, text, nodeset, boolean, number, first_text, pair, addresses_of, get_action, device_wsdl,
  get_network_interfaces_template, ip_address_path, mac_address_path,
  inner_get_device_ip_and_mac_address,
}

-- An answer is this text, or a set of nodes that this text stands first in.
abbrev pub IsFirst : Result Value → String → Type 0
IsFirst r s = (r ≡ ok (text s)) ⊎ ((rest : List String) × (r ≡ ok (nodeset (s ∷ rest))))

first_text_iff : (r : Result Value) (s : String) → (first_text r ≡ ok s) ↔ IsFirst r s
unfolding first_text
first_text_iff r s = (to r, from r)
  where
    to : (r : Result Value) → first_text r ≡ ok s → IsFirst r s
    to (ok (text x)) h = inl (ap (λ y. ok (text y)) (ok_injective h))
    to (ok (nodeset [])) h = cc
    to (ok (nodeset (x ∷ rest))) h = inr (rest, ap (λ y. ok (nodeset (y ∷ rest))) (ok_injective h))
    to (ok boolean) h = cc
    to (ok number) h = cc
    to (err e) h = cc

    from : (r : Result Value) → IsFirst r s → first_text r ≡ ok s
    from r (inl e) = ap first_text e
    from r (inr (rest, e)) = ap first_text e

pair_iff : (r q : Result String) (x y : String) → (pair r q ≡ ok (x, y)) ↔ ((r ≡ ok x) × (q ≡ ok y))
pair_iff (ok a) (ok b) x y = (
  λ h. let e = ok_injective h in (ap (λ p. ok p.0) e, ap (λ p. ok p.1) e),
  λ (h, k). ap (λ a. pair (ok a) (ok b)) (ok_injective h) ∙ ap (pair (ok x)) k,
)
pair_iff (ok a) (err e) x y = (λ h. cc, λ (h, k). cc)
pair_iff (err e) q x y = (λ h. cc, λ (h, k). cc)

module _ {Package : Type 0} (post : String → String → String → Result Package)
    (evaluate_xpath : Package → String → Result Value) where
  -- A camera has these addresses exactly if it answers the question for its network interfaces with a
  -- document in which the first IPv4 address and the first hardware address are these.
  pub get_device_ip_and_mac_address_iff :
      (url ip_address mac_address : String)
      → (inner_get_device_ip_and_mac_address post evaluate_xpath url ≡ ok (ip_address, mac_address))
        ↔ ((doc : Package) × (post url
                (get_action device_wsdl "GetNetworkInterfaces")
                get_network_interfaces_template
              ≡ ok doc)
            × IsFirst (evaluate_xpath doc ip_address_path) ip_address
            × IsFirst (evaluate_xpath doc mac_address_path) mac_address)
  unfolding inner_get_device_ip_and_mac_address
  get_device_ip_and_mac_address_iff url ip mac =
      go (post url (get_action device_wsdl "GetNetworkInterfaces") get_network_interfaces_template)
    where
      go :
          (r : Result Package)
          → (addresses_of post evaluate_xpath r ≡ ok (ip, mac)) ↔ (
              (doc : Package) × (r ≡ ok doc)
              × IsFirst (evaluate_xpath doc ip_address_path) ip
              × IsFirst (evaluate_xpath doc mac_address_path) mac)
      go (err e) = (λ h. cc, λ (doc, q, h, k). cc)
      go (ok doc) = (λ h. to h, λ (d, q, h, k). from d (ok_injective q) h k)
        where
          answer : String → Result Value
          answer = evaluate_xpath doc

          to :
              pair (first_text (answer ip_address_path)) (first_text (answer mac_address_path))
                ≡ ok (ip, mac)
              → (d : Package) × (ok doc ≡ ok d)
                × IsFirst (evaluate_xpath d ip_address_path) ip
                × IsFirst (evaluate_xpath d mac_address_path) mac
          to h =
              let (a, b) = (pair_iff _ _ ip mac).0 h in
              (doc, refl, (first_text_iff _ ip).0 a, (first_text_iff _ mac).0 b)

          from :
              (d : Package)
              → doc ≡ d
              → IsFirst (evaluate_xpath d ip_address_path) ip
              → IsFirst (evaluate_xpath d mac_address_path) mac
              → addresses_of post evaluate_xpath (ok doc) ≡ ok (ip, mac)
          from d e h k =
              ap (λ d. addresses_of post evaluate_xpath (ok d)) e
              ∙ (pair_iff _ _ ip mac).1 ((first_text_iff _ ip).1 h, (first_text_iff _ mac).1 k)

-- ===== src/Api/Dashboard/Qr.antt =====
-- internal/dashboard/qrcode.go and qrCodeHandler: the QR code of the node's discovery URL. The image is
-- made by a parameter.
use fidex_go_node.Common.{
  ℕ, String, Bool, Option, some, [], ◌∷◌, ◌==◌, ◌&&◌, ◌||◌, sprint, ℤ, pos, is_empty, ltb, leb,
  if◌then◌else◌,
}
use fidex_go_node.Errors.{plain, Result, err, map_error, context}
use fidex_go_node.Strconv.{atoi}

-- GetDiscoveryURL
unfoldable get_discovery_url : String → String
get_discovery_url base_url =
    let base =
      if base_url == "http://localhost:8080" || base_url == "http://127.0.0.1:8080"
      then "http://localhost:8443"
      else base_url in
    sprint (base ∷ "/.well-known/as5-configuration" ∷ [])

-- getBaseURL of internal/api/webui_handlers.go: whether the request came over TLS, the two
-- forwarded headers, and the host.
unfoldable pub get_base_url : Bool → String → String → String → String
get_base_url tls proto forwarded_host host =
    let scheme = if is_empty proto then (if tls then "https" else "http") else proto in
    sprint (scheme ∷ "://" ∷ (if is_empty forwarded_host then host else forwarded_host) ∷ [])

abbrev size_within : Option ℤ → ℕ
size_within (some (pos n)) = if ltb 0 n && leb n 1024 then n else 256
size_within _ = 256

unfoldable size_of : String → ℕ
size_of s = if is_empty s then 256 else size_within (atoi s)

module _ (encode : String → ℕ → Result String) where
  -- GenerateQRCode; `encode` is the QR library's. The size of a caller is never below 1.
  unfoldable generate_qr_code : String → ℕ → Result String
  generate_qr_code url size =
      if is_empty url
      then err (plain "discovery URL cannot be empty")
      else map_error (context "failed to generate QR code")
          (encode url (if ltb 0 size then size else 256))

  -- qrCodeHandler: the image, or an error that is answered with 500.
  unfoldable qr_code : String → String → Result String
  qr_code size base_url = generate_qr_code (get_discovery_url base_url) (size_of size)

-- ===== src/Ui/Kubeconfig/Reading.antt =====
-- The generated kubeconfig, and its reading as the cluster-info of another cluster.
use kube_ephemerals.Prelude.{
  String, ◌==◌, Bool, true, false, some, Labels, get_label, ◌≡◌, ◌≢◌, refl, if◌then◌else◌, arith,
  eq_iff,
}
use kube_ephemerals.Prelude.Text.{not_empty}
use kube_ephemerals.Exec.{Failure, Result, ok, err}
use kube_ephemerals.Ui.Config.{KubeconfigOut, cluster_info_kubeconfig_key}
use kube_ephemerals.Ui.Services.{Encoding}
use kube_ephemerals.Ui.Kubeconfig.{
  cluster_info, generate_kubeconfig_yaml, kubeconfig_out, ca_base64, server_and_ca, marshalled,
}

-- What is documented of the encoders: YAML's reader finds the clusters that were written, and base64
-- loses nothing.
pub record Faithful (enc : Encoding) : Type 0 where
  pub yaml :
      (k : KubeconfigOut) (out : String)
      → enc.marshal_yaml k ≡ ok out
      → enc.unmarshal_yaml out ≡ ok (record { clusters = k.clusters })
  pub base64 : (bytes : String) → enc.decode_base64 (enc.encode_base64 bytes) ≡ ok bytes
  pub nonempty : (bytes : String) → enc.encode_base64 bytes ≡ "" → bytes ≡ ""

-- A guard that returns an error was passed.
passed :
    (test : Bool) (e : Failure) (rest : Result String) (raw : String)
    → (if test then err e else rest) ≡ ok raw
    → (test ≡ false) × (rest ≡ ok raw)
passed true e rest raw h = absurd (ground (arith, h))
passed false e rest raw h = (refl, h)

module _ (enc : Encoding) where
  marshalled-ok : (x : Result String) (raw : String) → marshalled enc x ≡ ok raw → x ≡ ok raw
  marshalled-ok (ok out) raw h = h
  marshalled-ok (err e) raw h = absurd (ground (arith, h))

  generated :
      (server ca token namespace name raw : String)
      → generate_kubeconfig_yaml enc server ca token namespace name ≡ ok raw
      → (server ≢ "")
        × (enc.marshal_yaml (kubeconfig_out enc server ca token namespace name) ≡ ok raw)
  unfolding generate_kubeconfig_yaml
  generated server ca token namespace name raw h =
      let (has_server, with_server) = passed (server == "") _ _ raw h in
      let (_, with_token) = passed (token == "") _ _ raw with_server in
      let (_, with_namespace) = passed (namespace == "") _ _ raw with_token in
      let (_, complete) = passed (name == "") _ _ raw with_namespace in
      (not_empty server has_server, marshalled-ok _ raw complete)

  server_and_ca-ca_base64 :
      (server ca : String)
      → Faithful enc
      → server ≢ ""
      → server_and_ca enc
          (record { server = server; certificate_authority_data = ca_base64 enc ca })
        ≡ ok (server, ca)
  server_and_ca-ca_base64 server ca faithful given = ground (
    arith,
    given,
    eq_iff server "",
    eq_iff ca "",
    eq_iff (enc.encode_base64 ca) "",
    faithful.base64 ca,
    faithful.nonempty ca,
  )

  -- A kubeconfig that was generated, stored as another cluster's cluster-info, gives back the server
  -- and the certificate that it was generated from, if the encoders lose nothing.
  pub cluster_info-generate_kubeconfig_yaml :
      (server ca token namespace name raw : String) (entries : Labels)
      → Faithful enc
      → generate_kubeconfig_yaml enc server ca token namespace name ≡ ok raw
      → get_label cluster_info_kubeconfig_key entries ≡ some raw
      → cluster_info enc entries ≡ ok (server, ca)
  unfolding cluster_info
  cluster_info-generate_kubeconfig_yaml server ca token namespace name raw entries faithful h
        stored =
      let (given, written) = generated server ca token namespace name raw h in
      rw (stored, faithful.yaml _ raw written) (server_and_ca-ca_base64 server ca faithful given)

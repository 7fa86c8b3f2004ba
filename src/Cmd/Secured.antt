-- ===== src/Cmd/Secured.antt =====
-- What the options say of HTTP/2, of the metrics' protection and of the operator's namespace.
use kube_ephemerals.Prelude.{
  String, ◌==◌, none, some, List, [], ◌∷◌, if◌then◌else◌, ◌≡◌, refl, sym, arith, eq_iff, Bool-cases,
  inl, inr,
}
use kube_ephemerals.Cmd.Flags.{Flags}
use kube_ephemerals.Cmd.Options.{
  TlsConfig, TlsOption, tls_opts, webhook_options, metrics_options, operator_ns,
  with_authentication_and_authorization,
}

-- A server applies its options to its configuration in their order.
abbrev pub applied : List TlsOption → TlsConfig → TlsConfig
applied [] c = c
applied (o ∷ os) c = applied os (o c)

-- Whatever the other flags are: unless HTTP/2 is enabled, the options of the webhook server and those
-- of the metrics server each leave HTTP/1.1 as the only protocol, and otherwise they leave the
-- protocols alone; and the metrics are behind authentication and authorisation exactly when they
-- are to be secure.
pub options-next_protos :
    (flags : Flags) (c : TlsConfig)
    → ((applied (webhook_options flags).tls_opts c).next_protos
        ≡ (if flags.enable_http2 then c.next_protos else "http/1.1" ∷ []))
      × ((applied (metrics_options flags).tls_opts c).next_protos
          ≡ (if flags.enable_http2 then c.next_protos else "http/1.1" ∷ []))
      × ((metrics_options flags).filter_provider
          ≡ (if flags.secure_metrics then some with_authentication_and_authorization else none))
unfolding webhook_options metrics_options tls_opts
options-next_protos flags c = (ground arith, ground arith, ground arith)

-- The first of these texts that is not empty.
abbrev pub first_given : List String → String
first_given [] = ""
first_given (s ∷ ss) = if s == "" then first_given ss else s

last_given : (s : String) → (if s == "" then "" else s) ≡ s
last_given s = elim (Bool-cases (s == "")) [
  | inl empty ↦ rw empty (sym ((eq_iff s "").0 empty))
  | inr given ↦ rw given refl
]

-- The namespace of the operator is the flag's if it is set, else that of POD_NAMESPACE, else that of
-- OPERATOR_NAMESPACE, else it is empty.
pub operator_ns-first_given :
    (getenv : String → String) (flags : Flags)
    → operator_ns getenv flags
      ≡ first_given
          (flags.operator_namespace ∷ getenv "POD_NAMESPACE" ∷ getenv "OPERATOR_NAMESPACE" ∷ [])
unfolding operator_ns
operator_ns-first_given getenv flags = ground (arith, last_given (getenv "OPERATOR_NAMESPACE"))

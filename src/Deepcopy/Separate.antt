-- ===== src/Deepcopy/Separate.antt =====
-- A copy of the configuration has the same content, and shares nothing with the original.
use locations.Prelude.{Option, none, some, List, [], ◌≡◌}
use locations.Config.{
  LocationScopedResource, TlsConfig, MetricsServerConfig, LocationPublisherConfig, LocationOperator,
}
use locations.Deepcopy.Store.{Store}
use locations.Deepcopy.Store.Agree.{
  Agrees, PointsTo, Standing, IsCopier, PointsTo-IsCopier, Both, in_turn-Copied,
}
use locations.Deepcopy.Store.Kept.{OptionAt, separates}
use locations.Deepcopy.Operator.{
  Cell, flag, secret, resources, TlsConfigAt, MetricsServerConfigAt, LocationPublisherConfigAt,
  LocationOperatorAt, tls_deep_copy_into, metrics_deep_copy_into, publisher_deep_copy_into,
  operator_deep_copy_into, operator_deep_copy_object,
}

abbrev cell_of : {A : Type 0} → (A → Cell) → Option A → Option Cell
cell_of f none = none
cell_of f (some a) = some (f a)

-- A nil slice and an array of no elements are both the empty list.
abbrev IsSlice : Option Cell → List LocationScopedResource → Type 0
IsSlice none l = l ≡ []
IsSlice (some (resources k)) l = k ≡ l
IsSlice (some (flag b)) l = ⊥
IsSlice (some (secret s)) l = ⊥

abbrev TlsAt : Standing Cell TlsConfigAt TlsConfig
TlsAt lo hi h x v =
    PointsTo lo hi h x.secret_ref (cell_of secret v.secret_ref)
    × ((x.cert_dir ≡ v.cert_dir) × (x.cert_name ≡ v.cert_name) × (x.key_name ≡ v.key_name))

abbrev MetricsAt : Standing Cell MetricsServerConfigAt MetricsServerConfig
MetricsAt lo hi h x v =
    Both PointsTo TlsAt lo hi h (x.secure_serving, x.tls) (cell_of flag v.secure_serving, v.tls)
    × (x.bind_address ≡ v.bind_address)

abbrev PublisherAt : Standing Cell LocationPublisherConfigAt LocationPublisherConfig
PublisherAt lo hi h x v =
    ((c : Option Cell) × PointsTo lo hi h x.location_scoped_resources c
      × IsSlice c v.location_scoped_resources)
    × ((x.source_kubeconfig_path ≡ v.source_kubeconfig_path)
        × (x.hub_kubeconfig_path ≡ v.hub_kubeconfig_path)
        × (x.safety_resync_period ≡ v.safety_resync_period)
        × (x.client ≡ v.client))

-- The configuration with its pointers, each into these cells, is this configuration.
abbrev pub OperatorAt : Standing Cell LocationOperatorAt LocationOperator
OperatorAt lo hi h x v =
    Both MetricsAt PublisherAt lo hi h (x.metrics_server, x.location_publisher)
      (v.metrics_server, v.location_publisher)
    × ((x.kubeconfig_path ≡ v.kubeconfig_path) × (x.location_readiness ≡ v.location_readiness))

TlsAt-IsCopier : IsCopier TlsAt tls_deep_copy_into
unfolding tls_deep_copy_into
TlsAt-IsCopier = record {
  moves = λ lo hi lo' hi' g h x v k l same (p, plain).
      (PointsTo-IsCopier.moves lo hi lo' hi' g h _ _ k l same p, plain);
  copies = λ lo hi h x v k (p, plain).
      let (n, same, q) = PointsTo-IsCopier.copies lo hi h _ _ k p in (n, same, (q, plain));
}

MetricsAt-IsCopier : IsCopier MetricsAt metrics_deep_copy_into
unfolding metrics_deep_copy_into
MetricsAt-IsCopier = record {
  moves = λ lo hi lo' hi' g h x v k l same ((p, t), plain). (
    (
      PointsTo-IsCopier.moves lo hi lo' hi' g h _ _ k l same p,
      TlsAt-IsCopier.moves lo hi lo' hi' g h x.tls v.tls k l same t,
    ),
    plain,
  );
  copies = λ lo hi h x v k ((p, t), plain).
      let (n, same, q) =
        in_turn-Copied PointsTo-IsCopier TlsAt-IsCopier lo hi h x.secure_serving _ x.tls v.tls k p
          t in
      (n, same, (q, plain));
}

PublisherAt-IsCopier : IsCopier PublisherAt publisher_deep_copy_into
unfolding publisher_deep_copy_into
PublisherAt-IsCopier = record {
  moves = λ lo hi lo' hi' g h x v k l same ((c, p, slice), plain).
      ((c, PointsTo-IsCopier.moves lo hi lo' hi' g h _ c k l same p, slice), plain);
  copies = λ lo hi h x v k ((c, p, slice), plain).
      let (n, same, q) = PointsTo-IsCopier.copies lo hi h _ c k p in
      (n, same, ((c, q, slice), plain));
}

OperatorAt-IsCopier : IsCopier OperatorAt operator_deep_copy_into
unfolding operator_deep_copy_into
OperatorAt-IsCopier = record {
  moves = λ lo hi lo' hi' g h x v k l same ((m, p), plain). (
    (
      MetricsAt-IsCopier.moves lo hi lo' hi' g h x.metrics_server v.metrics_server k l same m,
      PublisherAt-IsCopier.moves lo hi lo' hi' g h x.location_publisher v.location_publisher k l
          same p,
    ),
    plain,
  );
  copies = λ lo hi h x v k ((m, p), plain).
      let (n, same, q) =
        in_turn-Copied MetricsAt-IsCopier PublisherAt-IsCopier lo hi h x.metrics_server
          v.metrics_server x.location_publisher v.location_publisher k m p in
      (n, same, (q, plain));
}

-- For a configuration, or nil, whose pointers all point to cells in use: after `DeepCopyObject`, in
-- every store that has the cells that the copy has allocated, whatever has become of the older ones,
-- the copy is the same configuration as the original was; and in every store that has the older cells,
-- whatever has become of the copy's, the original still is that configuration.
pub operator_deep_copy_object_separates :
    (h g g' : Store Cell) (x : Option LocationOperatorAt) (v : Option LocationOperator)
    → OptionAt OperatorAt 0 h.next h x v
    → Agrees h.next (operator_deep_copy_object x h).1.next g (operator_deep_copy_object x h).1
    → Agrees 0 h.next g' (operator_deep_copy_object x h).1
    → OptionAt OperatorAt h.next
        (operator_deep_copy_object x h).1.next
        g
        (operator_deep_copy_object x h).0
        v
      × OptionAt OperatorAt 0 h.next g' x v
operator_deep_copy_object_separates h g g' x v q new old =
    separates OperatorAt-IsCopier h g g' x v q new old

-- ===== src/Context/Boxes.antt =====
-- src/context.rs: `TypeId` and `Box<dyn Any>`. The boxes hold the types that the crate knows how
-- to put into a context; `Arc<RouteConf>` and `RouteConf` are two types.
use pingora_guide.Base.{ℕ, ◌≡◌, refl, ◌↔◌, Bool, true, Option, none, some, arith, Eq, nat_eq, ◌==◌}
use pingora_guide.Config.{RouteConf}
use pingora_guide.Pingora.{Pingora}
use pingora_guide.Router.{Arc, RouteEntry}
use pingora_guide.Context.Types.{
  RequestMeta, ConnectionGuard, CacheMeta, IdentityMeta, RateLimitMeta, SecurityMeta,
  RequestSizeState,
}

pub data TypeId : Type 0 where
  request_meta identity_meta connection_guard rate_limit_meta cache_meta : TypeId
  security_meta route_entry route_conf arc_route_conf request_size_state : TypeId

abbrev pub tag : TypeId → ℕ
tag request_meta = 0
tag identity_meta = 1
tag connection_guard = 2
tag rate_limit_meta = 3
tag cache_meta = 4
tag security_meta = 5
tag route_entry = 6
tag route_conf = 7
tag arc_route_conf = 8
tag request_size_state = 9

abbrev pub type_id_beq : TypeId → TypeId → Bool
type_id_beq a b = tag a == tag b

pub type_id_beq_iff : (a b : TypeId) → (type_id_beq a b ≡ true) ↔ (a ≡ b)
type_id_beq_iff a b = ground arith

instance abbrev pub type_id_eq : Eq TypeId
type_id_eq = record { beq = type_id_beq; beq_iff = type_id_beq_iff }

module _ (P : Pingora) where
  pub data Boxed : Type 0 where
    box_meta : RequestMeta P → Boxed
    box_identity : IdentityMeta → Boxed
    box_guard : ConnectionGuard P → Boxed
    box_rate : RateLimitMeta → Boxed
    box_cache : CacheMeta P → Boxed
    box_security : SecurityMeta → Boxed
    box_entry : RouteEntry P → Boxed
    box_conf : RouteConf → Boxed
    box_arc_conf : Arc RouteConf → Boxed
    box_size : RequestSizeState → Boxed

  -- `Any::type_id`
  abbrev pub type_id_of : Boxed → TypeId
  type_id_of (box_meta v) = request_meta
  type_id_of (box_identity v) = identity_meta
  type_id_of (box_guard v) = connection_guard
  type_id_of (box_rate v) = rate_limit_meta
  type_id_of (box_cache v) = cache_meta
  type_id_of (box_security v) = security_meta
  type_id_of (box_entry v) = route_entry
  type_id_of (box_conf v) = route_conf
  type_id_of (box_arc_conf v) = arc_route_conf
  type_id_of (box_size v) = request_size_state

  -- What `T: 'static` gives: `TypeId::of::<T>()`, `Box::new` and `downcast`.
  pub record Any (T : Type 0) : Type 0 where
    pub type_id : TypeId
    pub box : T → Boxed
    pub downcast : Boxed → Option T
    pub downcast-box : (v : T) → downcast (box v) ≡ some v
    pub type_id-box : (v : T) → type_id_of (box v) ≡ type_id
    pub downcast_total : (b : Boxed) → type_id_of b ≡ type_id → (v : T) × (b ≡ box v)

module _ {P : Pingora} where
  abbrev pub as_meta : Boxed P → Option (RequestMeta P)
  as_meta (box_meta v) = some v
  as_meta _ = none

  pub meta_total :
      (b : Boxed P) → type_id_of P b ≡ request_meta → (v : RequestMeta P) × (b ≡ box_meta v)
  meta_total (box_meta v) h = (v, refl)
  meta_total _ h = cc

  instance abbrev pub any_meta : Any P (RequestMeta P)
  any_meta = record {
    type_id = request_meta;
    box = box_meta;
    downcast = as_meta;
    downcast-box = λ v. refl;
    type_id-box = λ v. refl;
    downcast_total = meta_total;
  }

  abbrev pub as_entry : Boxed P → Option (RouteEntry P)
  as_entry (box_entry v) = some v
  as_entry _ = none

  pub entry_total :
      (b : Boxed P) → type_id_of P b ≡ route_entry → (v : RouteEntry P) × (b ≡ box_entry v)
  entry_total (box_entry v) h = (v, refl)
  entry_total _ h = cc

  instance abbrev pub any_entry : Any P (RouteEntry P)
  any_entry = record {
    type_id = route_entry;
    box = box_entry;
    downcast = as_entry;
    downcast-box = λ v. refl;
    type_id-box = λ v. refl;
    downcast_total = entry_total;
  }

  abbrev pub as_conf : Boxed P → Option (RouteConf)
  as_conf (box_conf v) = some v
  as_conf _ = none

  pub conf_total : (b : Boxed P) → type_id_of P b ≡ route_conf → (v : RouteConf) × (b ≡ box_conf v)
  conf_total (box_conf v) h = (v, refl)
  conf_total _ h = cc

  instance abbrev pub any_conf : Any P (RouteConf)
  any_conf = record {
    type_id = route_conf;
    box = box_conf;
    downcast = as_conf;
    downcast-box = λ v. refl;
    type_id-box = λ v. refl;
    downcast_total = conf_total;
  }

  abbrev pub as_arc_conf : Boxed P → Option (Arc RouteConf)
  as_arc_conf (box_arc_conf v) = some v
  as_arc_conf _ = none

  pub arc_conf_total :
      (b : Boxed P) → type_id_of P b ≡ arc_route_conf → (v : Arc RouteConf) × (b ≡ box_arc_conf v)
  arc_conf_total (box_arc_conf v) h = (v, refl)
  arc_conf_total _ h = cc

  instance abbrev pub any_arc_conf : Any P (Arc RouteConf)
  any_arc_conf = record {
    type_id = arc_route_conf;
    box = box_arc_conf;
    downcast = as_arc_conf;
    downcast-box = λ v. refl;
    type_id-box = λ v. refl;
    downcast_total = arc_conf_total;
  }

  abbrev pub as_size : Boxed P → Option (RequestSizeState)
  as_size (box_size v) = some v
  as_size _ = none

  pub size_total :
      (b : Boxed P)
      → type_id_of P b ≡ request_size_state
      → (v : RequestSizeState) × (b ≡ box_size v)
  size_total (box_size v) h = (v, refl)
  size_total _ h = cc

  instance abbrev pub any_size : Any P (RequestSizeState)
  any_size = record {
    type_id = request_size_state;
    box = box_size;
    downcast = as_size;
    downcast-box = λ v. refl;
    type_id-box = λ v. refl;
    downcast_total = size_total;
  }

-- ===== src/Examples/Context.antt =====
-- src/context.rs at concrete contexts.
use pingora_guide.Base.{List, [], ◌∷◌, ◌≡◌, String, false, none, some, arith, ok}
use pingora_guide.Base.Dict.{lookup-nil}
use pingora_guide.Context
use pingora_guide.Context.{type_id_eq}
use pingora_guide.Context.{
  GatewayContext, get, insert, remove, exists, update, RequestMeta, RequestSizeState, default_meta,
  default_size_state, any_meta, any_size,
}
use pingora_guide.Context.Laws.{IsTyped, insert-IsTyped, get-insert_self}
use pingora_guide.Context.Refinement.{
  Op, put, look, take, has, modify, Answer, value, flag, done, call, calls, spec, specs,
  calls-specs, call-IsTyped,
}
use pingora_guide.Base.Dict.{lookup}
use pingora_guide.Examples.Instance.{sample}

pub new-IsTyped : IsTyped (Context.new sample)
new-IsTyped t b e = absurd (ground (arith, lookup-nil {V = Context.Boxed sample} t))

-- The context of a request whose first byte came at 5.
abbrev pub fresh : GatewayContext sample
fresh = (insert {E = String} (default_meta sample 5) (Context.new sample)).1

pub fresh-IsTyped : IsTyped fresh
fresh-IsTyped = insert-IsTyped String (default_meta sample 5) (Context.new sample) new-IsTyped

pub fresh-meta : get (RequestMeta sample) fresh ≡ some (default_meta sample 5)
fresh-meta = get-insert_self String (default_meta sample 5) (Context.new sample)

abbrev five : RequestSizeState
five = record { bytes_read = 5 }

abbrev retry : RequestMeta sample → RequestMeta sample
retry meta = record meta { connection_attempts = 1 }

abbrev ops : List (Op sample)
ops =
    put (RequestMeta sample) any_meta (default_meta sample 5)
    ∷ put RequestSizeState any_size five
    ∷ modify (RequestMeta sample) any_meta retry
    ∷ take RequestSizeState any_size
    ∷ look (RequestMeta sample) any_meta
    ∷ has RequestSizeState any_size
    ∷ []

calls-specs_example :
    ((calls sample {E = String} ops (Context.new sample)).0
      ≡ ok (
          value none
          ∷ value none
          ∷ done
          ∷ value (some (Context.Boxed.box_size five))
          ∷ value (some (Context.Boxed.box_meta (retry (default_meta sample 5))))
          ∷ flag false
          ∷ []))
    × ((t : Context.TypeId)
        → lookup t (calls sample {E = String} ops (Context.new sample)).1
          ≡ (specs sample ops (λ t. none)).1 t)
unfolding specs spec
calls-specs_example = calls-specs sample String ops

call-IsTyped_example :
    ((answer : Answer sample) × ((call sample {E = String}
          (take (RequestMeta sample) any_meta)
          fresh).0
        ≡ ok answer))
    × IsTyped (call sample {E = String} (take (RequestMeta sample) any_meta) fresh).1
call-IsTyped_example =
    call-IsTyped sample String (take (RequestMeta sample) any_meta) fresh fresh-IsTyped

-- ===== src/Server/Methods/Types.antt =====
-- The values that a service passes to its method have the types that the method asks for.
use myrpc.Base.{
  List, [], ◌∷◌, ◌++◌, none, some, Bool, true, false, ◌&&◌, is_empty, ◌≡◌, refl, ap, ◌∙◌, sym, All,
  ◌⊎◌, inl, inr, Bool-cases,
}
use myrpc.Server.Methods.{
  GoType, pointer, plain, Method, NormService, is_pointer, is_exported_or_builtin_type, ins_suit,
  outs_suit, suit_of, suitable_methods, argument_made, reply_made, call_types,
}

-- The method has the service's name, it is exported, it takes just the values that the service passes it, the
-- last of which is a pointer, and it gives back one error.
pub record IsTyped (rcvr : GoType) (m : Method) (v : NormService) : Type 0 where
  pub name : v.method ≡ m.name
  pub exported : is_empty m.pkg_path ≡ true
  pub passed : call_types rcvr v ≡ some m.ins
  pub reply : is_pointer v.reply_type ≡ true
  pub outs : outs_suit m.outs ≡ true

-- The service is that of one of the methods.
abbrev pub IsOf : GoType → List Method → NormService → Type 0
IsOf rcvr [] v = ⊥
IsOf rcvr (m ∷ ms) v = IsTyped rcvr m v ⊎ IsOf rcvr ms v

-- The methods of a type have it as the type of their receiver.
abbrev pub IsMethodOf : GoType → Method → Type 0
IsMethodOf rcvr m = (rest : List GoType) × (m.ins ≡ rcvr ∷ rest)

made_lem : (t : GoType) → (argument_made t ≡ some t) × (reply_made t ≡ some t)
unfolding argument_made reply_made
made_lem (pointer t) = (refl, refl)
made_lem (plain name pkg_path) = (refl, refl)

call_types_lem :
    (rcvr : GoType) (v : NormService)
    → call_types rcvr v ≡ some (rcvr ∷ v.arg_type ∷ v.reply_type ∷ [])
unfolding call_types
call_types_lem rcvr v =
    ap
      (λ o. elim o [
        | none ↦ none
        | some argv ↦ elim (reply_made v.reply_type) [
          | none ↦ none
          | some replyv ↦ some (rcvr ∷ argv ∷ replyv ∷ [])
        ]
      ])
      (made_lem v.arg_type).0
    ∙ ap (λ o. elim o [ none ↦ none | some replyv ↦ some (rcvr ∷ v.arg_type ∷ replyv ∷ []) ])
        (made_lem v.reply_type).1

weaken :
    (rcvr : GoType) (m : Method) (ms : List Method) (vs : List NormService)
    → All (IsOf rcvr ms) vs
    → All (IsOf rcvr (m ∷ ms)) vs
weaken rcvr m ms [] h = tt
weaken rcvr m ms (v ∷ vs) h = (inr h.0, weaken rcvr m ms vs h.1)

and_both : (a b : Bool) → (a && b) ≡ true → (a ≡ true) × (b ≡ true)
and_both true b h = (refl, h)
and_both false b h = cc

suit_of-IsOf :
    (rcvr : GoType) (m : Method) (ms : List Method) (ins : List GoType) (vs : List NormService)
    → m.ins ≡ ins
    → IsMethodOf rcvr m
    → is_empty m.pkg_path ≡ true
    → ins_suit ins ≡ true
    → outs_suit m.outs ≡ true
    → All (IsOf rcvr (m ∷ ms)) vs
    → All (IsOf rcvr (m ∷ ms)) (suit_of m ins ++ vs)
suit_of-IsOf rcvr m ms [] vs e own open_pkg suits outs h = cc
suit_of-IsOf rcvr m ms (r ∷ []) vs e own open_pkg suits outs h = cc
suit_of-IsOf rcvr m ms (r ∷ arg ∷ []) vs e own open_pkg suits outs h = cc
suit_of-IsOf rcvr m ms (r ∷ arg ∷ reply ∷ []) vs e (rest, first) open_pkg suits outs h =
    let v : NormService = record {
      path = [];
      method = m.name;
      arg_type = arg;
      reply_type = reply;
    } in
    let (first_two, _) = and_both (is_exported_or_builtin_type arg && is_pointer reply) _ suits in
    let (_, points) = and_both (is_exported_or_builtin_type arg) (is_pointer reply) first_two in
    let same : rcvr ≡ r = cc (first, e) in
    (
      inl (record {
        name = refl;
        exported = open_pkg;
        passed =
            call_types_lem rcvr v ∙ ap (λ t. some (t ∷ arg ∷ reply ∷ [])) same ∙ ap some (sym e);
        reply = points;
        outs = outs;
      }),
      h,
    )
suit_of-IsOf rcvr m ms (r ∷ arg ∷ reply ∷ x ∷ ins) vs e own open_pkg suits outs h = cc

-- Every service that `suitableMethods` finds among the methods of a type is that of an exported method which
-- gives back just one error, and the values that the server makes and `Call` passes to the method have the
-- types of its ins, so that the call of its function does not panic; the reply is a pointer.
pub suitable_methods-IsTyped :
    (rcvr : GoType) (ms : List Method)
    → All (IsMethodOf rcvr) ms
    → All (IsOf rcvr ms) (suitable_methods ms)
unfolding suitable_methods
suitable_methods-IsTyped rcvr [] h = tt
suitable_methods-IsTyped rcvr (m ∷ ms) h =
    let rest = weaken rcvr m ms (suitable_methods ms) (suitable_methods-IsTyped rcvr ms h.1) in
    elim (Bool-cases (is_empty m.pkg_path && ins_suit m.ins && outs_suit m.outs)) [
      | inl suits ↦
          let (first_two, outs) = and_both (is_empty m.pkg_path && ins_suit m.ins) _ suits in
          let (open_pkg, ins) = and_both (is_empty m.pkg_path) (ins_suit m.ins) first_two in
          rw suits
            (suit_of-IsOf rcvr m ms m.ins (suitable_methods ms) refl h.0 open_pkg ins outs rest)
      | inr skipped ↦ rw skipped rest
    ]

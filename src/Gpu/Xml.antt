-- ===== src/Gpu/Xml.antt =====
-- What encoding/xml does with a struct whose fields are strings, structs and a slice of structs. A
-- child that no field names is skipped. A string has the text of its last element; the elements of a
-- struct fill one value together; a slice has a value for each element.
use gpuid.Base.{List, [], ◌∷◌, if◌then◌else◌, Text, text_eq}

mutual
  -- The name, the text between the children, and the children.
  pub data Element : Type 0 where
    element : Text → Text → Elements → Element

  pub data Elements : Type 0 where
    nil : Elements
    cons : Element → Elements → Elements

unfoldable pub append : Elements → Elements → Elements
append nil rest = rest
append (cons e es) rest = cons e (append es rest)

-- the text of the last child of the name, after an earlier one
unfoldable pub text_from : Text → Text → Elements → Text
text_from tag before nil = before
text_from tag before (cons (element name text kids) rest) =
    text_from tag (if text_eq name tag then text else before) rest

unfoldable pub text_of : Text → Elements → Text
unfolding text_from
text_of tag kids = text_from tag [] kids

-- the children of all children of the name
unfoldable pub kids_of : Text → Elements → Elements
kids_of tag nil = nil
kids_of tag (cons (element name text kids) rest) =
    if text_eq name tag then append kids (kids_of tag rest) else kids_of tag rest

-- the children of each child of the name
unfoldable pub each_of : Text → Elements → List Elements
each_of tag nil = []
each_of tag (cons (element name text kids) rest) =
    if text_eq name tag then kids ∷ each_of tag rest else each_of tag rest

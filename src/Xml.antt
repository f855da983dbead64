-- ===== src/Xml.antt =====
-- The parts of the reader that stand on their own beside libxml2: the attributes of an element
-- (src/XmlAttributes.cpp) and the namespaces in scope (src/XmlReader.h, src/XmlReader.cpp).
pub mod Attributes
pub mod Namespaces
pub mod Interfaces
pub mod Sax
pub mod Reader
pub mod Strings
